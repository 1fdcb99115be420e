-- ===== src/Analytics/Aging.antt =====
-- `classifyAgingBucket`, `emptyAgingBuckets` and `accumulateAgingBucket`: funds by the age that
-- their tenor gives them.
use wealth_track.Prelude.{
  ℕ, ◌+◌, ◌≤◌, ◌≡◌, ◌↔◌, ◌⊎◌, refl, ◌∙◌, Bool, true, false, ◌&&◌, List, [], ◌∷◌, filter, length,
  leb, arith, if◌then◌else◌,
}
use wealth_track.Rows.{InvestmentRecordRow}
use wealth_track.Analytics.{Numbers, total_from}
use wealth_track.Analytics.Tally.{add_amount, add_one, total_from-filter, length-filter_cons}

pub record FundsAgingBucket (Num : Type 0) : Type 0 where
  pub investment_count : ℕ
  pub investment_value : Num

-- `FundsAgingBuckets`, whose keys are those of `AgingKey`.
pub record FundsAgingBuckets (Num : Type 0) : Type 0 where
  pub days0_to_90 : FundsAgingBucket Num
  pub days120_to_210 : FundsAgingBucket Num
  pub days240_to_330 : FundsAgingBucket Num
  pub days366_plus : FundsAgingBucket Num
  pub unclassified : FundsAgingBucket Num

pub data AgingKey : Type 0 where
  up_to_90 from_120 from_240 from_366 other : AgingKey

unfoldable pub same_key : AgingKey → AgingKey → Bool
same_key up_to_90 up_to_90 = true
same_key from_120 from_120 = true
same_key from_240 from_240 = true
same_key from_366 from_366 = true
same_key other other = true
same_key _ _ = false

-- A tenor is a whole number from 0 on here.
unfoldable pub classify_aging_bucket : ℕ → AgingKey
classify_aging_bucket tenor_days =
    if leb tenor_days 90
    then up_to_90
    else if leb 120 tenor_days && leb tenor_days 210
    then from_120
    else if leb 240 tenor_days && leb tenor_days 330
    then from_240
    else if leb 366 tenor_days
    then from_366
    else other

abbrev pub of_age : AgingKey → InvestmentRecordRow → Bool
of_age key r = same_key (classify_aging_bucket r.tenor_days) key

module _ (js : Numbers) where
  open js use {Num, of_count}

  empty_bucket : FundsAgingBucket Num
  empty_bucket = record { investment_count = 0; investment_value = of_count 0 }

  unfoldable pub empty_aging_buckets : FundsAgingBuckets Num
  unfolding empty_bucket
  empty_aging_buckets = record {
    days0_to_90 = empty_bucket;
    days120_to_210 = empty_bucket;
    days240_to_330 = empty_bucket;
    days366_plus = empty_bucket;
    unclassified = empty_bucket;
  }

  -- What a record does to the bucket of a key: nothing, unless it is of that key.
  abbrev grow_bucket : AgingKey → InvestmentRecordRow → FundsAgingBucket Num → FundsAgingBucket Num
  grow_bucket key r b = record {
    investment_count = add_one (of_age key r) b.investment_count;
    investment_value = add_amount js (of_age key r) r b.investment_value;
  }

  unfoldable pub accumulate_aging_bucket :
      FundsAgingBuckets Num → InvestmentRecordRow → FundsAgingBuckets Num
  accumulate_aging_bucket b r = record {
    days0_to_90 = grow_bucket up_to_90 r b.days0_to_90;
    days120_to_210 = grow_bucket from_120 r b.days120_to_210;
    days240_to_330 = grow_bucket from_240 r b.days240_to_330;
    days366_plus = grow_bucket from_366 r b.days366_plus;
    unclassified = grow_bucket other r b.unclassified;
  }

  -- `for (const record of records) accumulateAgingBucket(buckets, record)`
  unfoldable pub accumulate_all :
      FundsAgingBuckets Num → List InvestmentRecordRow → FundsAgingBuckets Num
  unfolding accumulate_aging_bucket
  accumulate_all b [] = b
  accumulate_all b (r ∷ rs) = accumulate_all (accumulate_aging_bucket b r) rs

  -- A bucket with the records of a key added.
  abbrev with_records :
      AgingKey → FundsAgingBucket Num → List InvestmentRecordRow → FundsAgingBucket Num
  with_records key b rs = record {
    investment_count = b.investment_count + length (filter (of_age key) rs);
    investment_value = total_from js b.investment_value (filter (of_age key) rs);
  }

  abbrev pub all_with_records :
      FundsAgingBuckets Num → List InvestmentRecordRow → FundsAgingBuckets Num
  all_with_records b rs = record {
    days0_to_90 = with_records up_to_90 b.days0_to_90 rs;
    days120_to_210 = with_records from_120 b.days120_to_210 rs;
    days240_to_330 = with_records from_240 b.days240_to_330 rs;
    days366_plus = with_records from_366 b.days366_plus rs;
    unclassified = with_records other b.unclassified rs;
  }

  with_records-cons :
      (key : AgingKey) (b : FundsAgingBucket Num) (r : InvestmentRecordRow)
      (rs : List InvestmentRecordRow)
      → with_records key (grow_bucket key r b) rs ≡ with_records key b (r ∷ rs)
  with_records-cons key b r rs =
      rw
        (
          length-filter_cons (of_age key) b.investment_count r rs,
          total_from-filter js (of_age key) b.investment_value r rs,
        )
        refl

  pub accumulate_all-eq :
      (b : FundsAgingBuckets Num) (rs : List InvestmentRecordRow)
      → accumulate_all b rs ≡ all_with_records b rs
  unfolding accumulate_all total_from
  accumulate_all-eq b [] = ground arith
  accumulate_all-eq b (r ∷ rs) =
      accumulate_all-eq (accumulate_aging_bucket b r) rs
      ∙ rw
          (
            with_records-cons up_to_90 b.days0_to_90 r rs,
            with_records-cons from_120 b.days120_to_210 r rs,
            with_records-cons from_240 b.days240_to_330 r rs,
            with_records-cons from_366 b.days366_plus r rs,
            with_records-cons other b.unclassified r rs,
          )
          refl

  -- The number of records in all buckets.
  abbrev pub counted : FundsAgingBuckets Num → ℕ
  counted b =
      b.days0_to_90.investment_count + b.days120_to_210.investment_count
      + b.days240_to_330.investment_count + b.days366_plus.investment_count
      + b.unclassified.investment_count

  counted-accumulate :
      (b : FundsAgingBuckets Num) (r : InvestmentRecordRow)
      → counted (accumulate_aging_bucket b r) ≡ counted b + 1
  unfolding accumulate_aging_bucket same_key add_one
  counted-accumulate b r = ground arith

  counted-accumulate_all :
      (b : FundsAgingBuckets Num) (rs : List InvestmentRecordRow)
      → counted (accumulate_all b rs) ≡ counted b + length rs
  unfolding accumulate_all
  counted-accumulate_all b [] = omega arith
  counted-accumulate_all b (r ∷ rs) =
      omega (arith, counted-accumulate_all (accumulate_aging_bucket b r) rs, counted-accumulate b r)

  -- When any records are added to empty buckets, each bucket ends with the number of the records that
  -- are classified under it and with their sum from the first to the last, and the counts of the five
  -- buckets together are the number of the records.
  accumulate_all_lem :
      (rs : List InvestmentRecordRow)
      → (accumulate_all empty_aging_buckets rs ≡ all_with_records empty_aging_buckets rs)
        × (counted (accumulate_all empty_aging_buckets rs) ≡ length rs)
  unfolding empty_aging_buckets
  accumulate_all_lem rs = (
    accumulate_all-eq empty_aging_buckets rs,
    omega (arith, counted-accumulate_all empty_aging_buckets rs),
  )

-- The tenors that fall between the buckets.
pub classify_aging_bucket-other :
    (days : ℕ)
    → (classify_aging_bucket days ≡ other) ↔ (
        ((91 ≤ days) × (days ≤ 119))
        ⊎ (((211 ≤ days) × (days ≤ 239)) ⊎ ((331 ≤ days) × (days ≤ 365))))
unfolding classify_aging_bucket
classify_aging_bucket-other days = ground arith
