-- ===== src/Integrations/Tabs/Discovery.antt =====
-- What a discovery of the tabs of a spreadsheet makes of the tabs that are known already.
use wealth_track.Prelude.{
  ℕ, suc, ◌≡◌, refl, ◌∙◌, Bool, false, not, ◌&&◌, List, [], ◌∷◌, ◌++◌, filter, any, All, All-append,
  append-nil, length, some, Option, none, Option-cases, arith, Bool-cases, inl, inr,
}
use wealth_track.Prelude.Text.{Text, codes, text_eq, text_eq_comm, text_eq_refl}
use wealth_track.Prelude.Action.{Result, HttpError, ok, err}
use wealth_track.Actor.{AuthenticatedActor, permits}
use wealth_track.Rows.{GoogleSheetTabRow, TabStatus, IntegrationSourceRow}
use wealth_track.Store.{Store}
use wealth_track.Integrations.{find_source}
use wealth_track.Store.Queries.{update_where}
use wealth_track.Store.Laws.{filter-append}
use wealth_track.Outbox.{Request}
use wealth_track.Integrations.Tabs.{
  Discover, TabsReply, tabs_of, sheets_source, spreadsheet_of, discover_sheet_tabs, same_sheet,
  overwritten, upsert, discovered_tab, upsert_all,
}

-- As it is when it has just been discovered: active, in the whole range and without a mapping.
abbrev pub IsReset : GoogleSheetTabRow → Type 0
IsReset tab =
    (tab.status ≡ TabStatus.active)
    × ((tab.range_notation ≡ codes "A1:ZZ") × (tab.column_mapping ≡ []))

-- The tab of a source for a sheet.
abbrev pub is_tab_for : Text → Text → GoogleSheetTabRow → Bool
is_tab_for source_id sheet_id tab =
    text_eq tab.integration_source_id source_id && text_eq tab.sheet_id sheet_id

abbrev of_other_source : Text → GoogleSheetTabRow → Bool
of_other_source id tab = not (text_eq tab.integration_source_id id)

single-All : {A : Type 0} (P : A → Type 0) (p : A → Bool) (x : A) → P x → All P (filter p (x ∷ []))
single-All P p x h = elim (Bool-cases (p x)) [ inl b ↦ rw b (h, tt) | inr b ↦ rw b tt ]

module _ (tab : GoogleSheetTabRow) (reset : IsReset tab) where
  abbrev AllReset : Text → Text → List GoogleSheetTabRow → Type 0
  AllReset id sheet_id table = All IsReset (filter (is_tab_for id sheet_id) table)

  update-AllReset :
      (id sheet_id : Text) (table : List GoogleSheetTabRow)
      → AllReset id sheet_id table
      → AllReset id sheet_id (update_where (same_sheet tab) (overwritten tab) table)
  update-AllReset id sheet_id [] h = tt
  update-AllReset id sheet_id (x ∷ xs) h = elim (Bool-cases (is_tab_for id sheet_id x)) [
    | inl f ↦ elim (Bool-cases (same_sheet tab x)) [
      | inl s ↦ rw (s, f) (reset, update-AllReset id sheet_id xs (rw f at h).1)
      | inr s ↦ rw (s, f) ((rw f at h).0, update-AllReset id sheet_id xs (rw f at h).1)
    ]
    | inr f ↦ elim (Bool-cases (same_sheet tab x)) [
      | inl s ↦ rw (s, f) (update-AllReset id sheet_id xs (rw f at h))
      | inr s ↦ rw (s, f) (update-AllReset id sheet_id xs (rw f at h))
    ]
  ]

  append-AllReset :
      (id sheet_id : Text) (table : List GoogleSheetTabRow)
      → AllReset id sheet_id table
      → AllReset id sheet_id (table ++ tab ∷ [])
  append-AllReset id sheet_id table h =
      rw (filter-append (is_tab_for id sheet_id) table (tab ∷ [])) (
        All-append IsReset (filter (is_tab_for id sheet_id) table) _ h
          (single-All IsReset (is_tab_for id sheet_id) tab reset))

  -- A tab that has been reset stays so.
  upsert-AllReset :
      (id sheet_id : Text) (table : List GoogleSheetTabRow)
      → AllReset id sheet_id table
      → AllReset id sheet_id (upsert tab table)
  unfolding upsert
  upsert-AllReset id sheet_id table h = elim (Bool-cases (any (same_sheet tab) table)) [
    | inl b ↦ rw b (update-AllReset id sheet_id table h)
    | inr b ↦ rw b (append-AllReset id sheet_id table h)
  ]

  same-is_tab_for :
      (x : GoogleSheetTabRow)
      → same_sheet tab x ≡ is_tab_for tab.integration_source_id tab.sheet_id x
  same-is_tab_for x = ground (
    arith,
    text_eq_comm tab.integration_source_id x.integration_source_id,
    text_eq_comm tab.sheet_id x.sheet_id,
  )

  abbrev Own : List GoogleSheetTabRow → Type 0
  Own = AllReset tab.integration_source_id tab.sheet_id

  update-Own :
      (table : List GoogleSheetTabRow) → Own (update_where (same_sheet tab) (overwritten tab) table)
  update-Own [] = tt
  update-Own (x ∷ xs) = elim (Bool-cases (same_sheet tab x)) [
    | inl s ↦ rw (s, ← same-is_tab_for x, s) (reset, update-Own xs)
    | inr s ↦ rw (s, ← same-is_tab_for x, s) (update-Own xs)
  ]

  no-Own : (table : List GoogleSheetTabRow) → any (same_sheet tab) table ≡ false → Own table
  no-Own [] h = tt
  no-Own (x ∷ xs) h =
      let s : same_sheet tab x ≡ false = ground (arith, h) in
      rw (← same-is_tab_for x, s) (no-Own xs (ground (arith, h)))

  -- The tab of its own sheet is reset.
  upsert-Own : (table : List GoogleSheetTabRow) → Own (upsert tab table)
  unfolding upsert
  upsert-Own table = elim (Bool-cases (any (same_sheet tab) table)) [
    | inl b ↦ rw b (update-Own table)
    | inr b ↦ rw b (append-AllReset _ _ table (no-Own table b))
  ]

  upsert_others :
      (table : List GoogleSheetTabRow)
      → filter (of_other_source tab.integration_source_id) (upsert tab table)
        ≡ filter (of_other_source tab.integration_source_id) table
  unfolding upsert
  upsert_others table = elim (Bool-cases (any (same_sheet tab) table)) [
    | inl b ↦ rw b (update_others table)
    | inr b ↦ rw b (
        filter-append (of_other_source tab.integration_source_id) table (tab ∷ [])
        ∙ rw (text_eq_refl tab.integration_source_id) (append-nil _))
  ]
    where
      update_others :
          (xs : List GoogleSheetTabRow)
          → filter
              (of_other_source tab.integration_source_id)
              (update_where (same_sheet tab) (overwritten tab) xs)
            ≡ filter (of_other_source tab.integration_source_id) xs
      update_others [] = refl
      update_others (x ∷ xs) =
          ground (
            arith,
            update_others xs,
            text_eq_comm tab.integration_source_id x.integration_source_id,
          )

module _ (request : Request) (discover : Discover) (title_le : Text → Text → Bool)
    (actor : AuthenticatedActor) (id : Text) where
  abbrev upserted : ℕ → List (Text × Text) → List GoogleSheetTabRow → List GoogleSheetTabRow
  upserted = upsert_all request discover title_le actor id

  upserted-AllReset :
      (sheet_id : Text) (n : ℕ) (sheets : List (Text × Text)) (table : List GoogleSheetTabRow)
      → All IsReset (filter (is_tab_for id sheet_id) table)
      → All IsReset (filter (is_tab_for id sheet_id) (upserted n sheets table))
  unfolding upsert_all
  upserted-AllReset sheet_id n [] table h = h
  upserted-AllReset sheet_id n (sheet ∷ sheets) table h =
      upserted-AllReset sheet_id (suc n) sheets _ (
        upsert-AllReset (discovered_tab request discover title_le actor id n sheet)
          (refl, (refl, refl)) id sheet_id table h)

  -- The tab of every sheet that was discovered is reset.
  upserted-All :
      (n : ℕ) (sheets : List (Text × Text)) (table : List GoogleSheetTabRow)
      → All
          (λ sheet. All IsReset (filter (is_tab_for id (sheet.0)) (upserted n sheets table)))
          sheets
  unfolding upsert_all
  upserted-All n [] table = tt
  upserted-All n (sheet ∷ sheets) table = (
    upserted-AllReset (sheet.0) (suc n) sheets _ (
        upsert-Own (discovered_tab request discover title_le actor id n sheet) (refl, (refl, refl))
          table),
    upserted-All (suc n) sheets _,
  )

  upserted_others :
      (n : ℕ) (sheets : List (Text × Text)) (table : List GoogleSheetTabRow)
      → filter (of_other_source id) (upserted n sheets table) ≡ filter (of_other_source id) table
  unfolding upsert_all
  upserted_others n [] table = refl
  upserted_others n (sheet ∷ sheets) table =
      upserted_others (suc n) sheets _
      ∙ upsert_others (discovered_tab request discover title_le actor id n sheet)
          (refl, (refl, refl)) table

  -- The ways in which a discovery ends.
  pub data Discovered (s : Store) : Result TabsReply × Store → Type 0 where
    not_discovered : (e : HttpError) → Discovered s (err e, s)
    reset :
        (source : IntegrationSourceRow)
        → find_source id s.sources ≡ some source
        → (spreadsheet : Text) (sheets : List (Text × Text))
        → discover source.secret_ref spreadsheet ≡ some sheets
        → (t : List GoogleSheetTabRow)
        → All (λ sheet. All IsReset (filter (is_tab_for id (sheet.0)) t)) sheets
        → filter (of_other_source id) t ≡ filter (of_other_source id) s.tabs
        → Discovered s (
          ok (record {
            tabs = tabs_of request discover title_le actor id t;
            count = length (tabs_of request discover title_le actor id t);
          }),
          record s { tabs = t },
        )

  found-sheets_source :
      (o : Option IntegrationSourceRow) (source : IntegrationSourceRow)
      → sheets_source request discover title_le actor o ≡ some source
      → o ≡ some source
  unfolding sheets_source
  found-sheets_source none source h = h
  found-sheets_source (some x) source h = ground (arith, h)

  -- A discovery of the tabs of a source either throws and changes nothing, or it leaves every tab of
  -- the source whose sheet it found active, in the range A1:ZZ and without a column mapping, also a
  -- tab that was there before and had been ignored or mapped, and it leaves the tabs of other sources
  -- as they were.
  pub discover_sheet_tabs-Discovered :
      (s : Store) → Discovered s (discover_sheet_tabs request discover title_le actor id s)
  unfolding discover_sheet_tabs
  discover_sheet_tabs-Discovered s =
      elim (Bool-cases (permits (some actor) (codes "integrations.create"))) [
        | inr denied ↦ rw denied (not_discovered _)
        | inl allowed ↦
            elim (Option-cases
              (sheets_source request discover title_le actor (find_source id s.sources))) [
                | inl e ↦ rw (allowed, e) (not_discovered _)
                | inr (source, e) ↦
                    elim (Option-cases
                      (spreadsheet_of request discover title_le actor source.connection_config)) [
                        | inl c ↦ rw (allowed, e, c) (not_discovered _)
                        | inr (spreadsheet, c) ↦
                            elim (Option-cases (discover source.secret_ref spreadsheet)) [
                              | inl d ↦ rw (allowed, e, c, d) (not_discovered _)
                              | inr (sheets, d) ↦
                                  rw (allowed, e, c, d)
                                    (reset source (found-sheets_source _ source e) spreadsheet
                                      sheets d _ (upserted-All 0 sheets s.tabs)
                                      (upserted_others 0 sheets s.tabs))
                            ]
                      ]
              ]
      ]
