-- ===== src/Integrations/Tabs.antt =====
-- The tabs of a source's spreadsheet: `discoverSheetTabs`, `listSheetTabs`, `updateSheetTab` and
-- apps/api/src/modules/integrations/repositories/mysql-google-sheet-tab.repository.ts.
pub mod Discovery
use wealth_track.Prelude.{
  ℕ, suc, Bool, true, false, not, ◌&&◌, ◌||◌, is_some, List, [], ◌∷◌, ◌++◌, Option, none, some,
  or_else, find, filter, any, length, if◌then◌else◌,
}
use wealth_track.Prelude.Text.{Text, codes, text_eq, is_empty}
use wealth_track.Prelude.Action.{
  Action, ok, err, internal, not_found, pure, gets, modify, require, throw_if, continue, ◌>>=◌,
  ◌>>◌,
}
use wealth_track.Csv.{value_of}
use wealth_track.Rows.{Json, Time, IntegrationSourceRow, SourceType, GoogleSheetTabRow, TabStatus}
use wealth_track.Store.{Store}
use wealth_track.Store.Queries.{update_where}
use wealth_track.Import.{truthy}
use wealth_track.Actor.{AuthenticatedActor, assert_permitted}
use wealth_track.Outbox.{Request}
use wealth_track.Analytics.Sorting.{sort}
use wealth_track.Scheduler.{is_google_sheets}
use wealth_track.Integrations.{find_source}

-- `UpdateSheetTabRequestDto`, where none is undefined
pub record TabPatch : Type 0 where
  pub column_mapping : Option Json
  pub range_notation : Option Text
  pub status : Option TabStatus

pub record TabsReply : Type 0 where
  pub tabs : List GoogleSheetTabRow
  pub count : ℕ

-- The unique key (integration_source_id, sheet_id).
abbrev pub same_sheet : GoogleSheetTabRow → GoogleSheetTabRow → Bool
same_sheet a b =
    text_eq a.integration_source_id b.integration_source_id && text_eq a.sheet_id b.sheet_id

-- `ON DUPLICATE KEY UPDATE` of the title, the range, the mapping, the status and the time
abbrev pub overwritten : GoogleSheetTabRow → GoogleSheetTabRow → GoogleSheetTabRow
overwritten tab old = record old {
  sheet_title = tab.sheet_title;
  range_notation = tab.range_notation;
  column_mapping = tab.column_mapping;
  status = tab.status;
  updated_at = tab.updated_at;
}

unfoldable pub upsert : GoogleSheetTabRow → List GoogleSheetTabRow → List GoogleSheetTabRow
upsert tab table =
    if any (same_sheet tab) table
    then update_where (same_sheet tab) (overwritten tab) table
    else table ++ tab ∷ []

-- `updateTab`: without any field nothing is executed.
unfoldable pub patched : Time → TabPatch → GoogleSheetTabRow → GoogleSheetTabRow
patched now patch tab = record tab {
  column_mapping = or_else patch.column_mapping tab.column_mapping;
  range_notation = or_else patch.range_notation tab.range_notation;
  status = or_else patch.status tab.status;
  updated_at = now;
}

unfoldable pub is_empty_patch : TabPatch → Bool
is_empty_patch patch =
    not (is_some patch.column_mapping || (is_some patch.range_notation || is_some patch.status))

-- What Google answers to `spreadsheets.get` with the credentials in the secret: the identifier and
-- the title of each sheet, with the defaults of the code; `none` where a call throws.
abbrev pub Discover : Type 0
Discover = Text → Text → Option (List (Text × Text))

module _ (request : Request) (discover : Discover) (title_le : Text → Text → Bool)
    (actor : AuthenticatedActor) where
  -- `listByIntegrationSourceId`; `title_le` is the collation of MySQL.
  unfoldable pub tabs_of : Text → List GoogleSheetTabRow → List GoogleSheetTabRow
  tabs_of id table =
      sort (λ a b. title_le a.sheet_title b.sheet_title)
        (filter (λ t. text_eq t.integration_source_id id) table)

  abbrev tabs_reply : List GoogleSheetTabRow → TabsReply
  tabs_reply tabs = record { tabs = tabs; count = length tabs }

  abbrev pub discovered_tab : Text → ℕ → Text × Text → GoogleSheetTabRow
  discovered_tab id n (sheet_id, title) = record {
    id = request.new_id n;
    integration_source_id = id;
    sheet_id = sheet_id;
    sheet_title = title;
    range_notation = codes "A1:ZZ";
    column_mapping = [];
    status = TabStatus.active;
    last_synced_at = none;
    last_row_count = none;
    created_at = request.now;
    updated_at = request.now;
  }

  -- The loop over the sheets that were discovered.
  unfoldable pub upsert_all :
      Text → ℕ → List (Text × Text) → List GoogleSheetTabRow → List GoogleSheetTabRow
  unfolding upsert
  upsert_all id n [] table = table
  upsert_all id n (sheet ∷ sheets) table =
      upsert_all id (suc n) sheets (upsert (discovered_tab id n sheet) table)

  -- A source that is there, and is a Google sheet.
  unfoldable pub sheets_source : Option IntegrationSourceRow → Option IntegrationSourceRow
  unfolding is_google_sheets
  sheets_source none = none
  sheets_source (some source) = if is_google_sheets source.source_type then some source else none

  -- `config?.spreadsheetId`, where it is truthy.
  unfoldable pub spreadsheet_of : Option Json → Option Text
  unfolding value_of truthy
  spreadsheet_of none = none
  spreadsheet_of (some config) = truthy (value_of (codes "spreadsheetId") config)

  unfoldable pub discover_sheet_tabs : Text → Action Store TabsReply
  unfolding sheets_source spreadsheet_of upsert_all tabs_of
  discover_sheet_tabs id = do
    assert_permitted (some actor) (codes "integrations.create") "integrations.create is required"
    found ← gets (λ s. sheets_source (find_source id s.sources))
    source ← require found (not_found "Google Sheets integration not found")
    spreadsheet ←
        require (spreadsheet_of source.connection_config)
          (internal "Integration is missing spreadsheetId in connectionConfig")
    sheets ← require (discover source.secret_ref spreadsheet) (internal "spreadsheets.get")
    modify (λ s. record s { tabs = upsert_all id 0 sheets s.tabs })
    gets (λ s. tabs_reply (tabs_of id s.tabs))

  unfoldable pub list_sheet_tabs : Text → Action Store TabsReply
  unfolding tabs_of
  list_sheet_tabs id = do
    assert_permitted (some actor) (codes "integrations.read") "integrations.read is required"
    found ← gets (λ s. find_source id s.sources)
    source ← require found (not_found "Integration source not found")
    gets (λ s. tabs_reply (tabs_of id s.tabs))

  abbrev pub find_tab : Text → List GoogleSheetTabRow → Option GoogleSheetTabRow
  find_tab id = find (λ t. text_eq t.id id)

  -- The tab with the identifier, if it is one of the source.
  unfoldable pub tab_of_source : Text → Option GoogleSheetTabRow → Option GoogleSheetTabRow
  tab_of_source id none = none
  tab_of_source id (some tab) = if text_eq tab.integration_source_id id then some tab else none

  unfoldable pub update_tab : Text → TabPatch → List GoogleSheetTabRow → List GoogleSheetTabRow
  unfolding is_empty_patch patched
  update_tab tab_id patch table =
      if is_empty_patch patch
      then table
      else update_where (λ t. text_eq t.id tab_id) (patched request.now patch) table

  unfoldable pub update_sheet_tab : Text → Text → TabPatch → Action Store (Option GoogleSheetTabRow)
  unfolding tab_of_source update_tab
  update_sheet_tab id tab_id patch = do
    assert_permitted (some actor) (codes "integrations.update") "integrations.update is required"
    found ← gets (λ s. tab_of_source id (find_tab tab_id s.tabs))
    tab ← require found (not_found "Sheet tab not found")
    modify (λ s. record s { tabs = update_tab tab_id patch s.tabs })
    gets (λ s. find_tab tab_id s.tabs)
