-- ===== src/PlayAttestation.antt =====
-- backend/cs_uk_api/play_attestation.py: the counters of what every play request got, and the bounded
-- tail of faults. The time text of a fault is an argument.
pub mod Counts
use ps4_uk_stream.Prelude.{
  ℕ, ◌+◌, String, Option, none, some, List, [], ◌∷◌, ◌++◌, if◌then◌else◌, ◌==◌, nat_eq, string_eq,
  take_last,
}
use ps4_uk_stream.Prelude.Dict
use ps4_uk_stream.Prelude.Dict.{Dict}
use ps4_uk_stream.Prelude.Sorting.{sorted}
use ps4_uk_stream.Prelude.Texts.{str_le}

abbrev pub unknown_provider : String
unknown_provider = "unknown"

abbrev pub recent_max : ℕ
recent_max = 20

-- `_Bucket`
pub record Bucket : Type 0 where
  pub served : ℕ
  pub refused : ℕ
  pub refused_codes : Dict String ℕ
  pub no_progress : ℕ

abbrev pub new_bucket : Bucket
new_bucket = record { served = 0; refused = 0; refused_codes = []; no_progress = 0 }

pub data PlayOutcome : Type 0 where
  refused_play no_progress_play : PlayOutcome

pub record PlayFault : Type 0 where
  pub at : String
  pub outcome : PlayOutcome
  pub provider : String
  pub item_id : String
  pub code : Option String
  pub surface : Option String

-- `recent` is a deque of at most `recent_max` elements, the oldest first.
pub record PlayAttestationTracker : Type 0 where
  pub recent_max : ℕ
  pub recent : List PlayFault
  pub buckets : Dict String Bucket

abbrev pub new : ℕ → PlayAttestationTracker
new recent_max = record { recent_max = recent_max; recent = []; buckets = [] }

-- `value or "unknown"`: the empty text counts as none.
abbrev pub or_unknown : Option String → String
or_unknown none = unknown_provider
or_unknown (some s) = if s == "" then unknown_provider else s

abbrev pub bucket_key : Option String → String
bucket_key provider_id = or_unknown provider_id

abbrev pub bucket_or_new : Option Bucket → Bucket
bucket_or_new none = new_bucket
bucket_or_new (some b) = b

-- The bucket that `_bucket` returns, without the insertion
unfoldable pub bucket_of : String → Dict String Bucket → Bucket
bucket_of key buckets = bucket_or_new (Dict.get key buckets)

-- `self._bucket(provider_id)` and a change of the bucket
unfoldable pub on_bucket :
    Option String → (Bucket → Bucket) → Dict String Bucket → Dict String Bucket
on_bucket provider_id change buckets =
    Dict.put (bucket_key provider_id) (change (bucket_of (bucket_key provider_id) buckets)) buckets

-- `append` on the bounded deque
abbrev pub append_fault : PlayFault → PlayAttestationTracker → List PlayFault
append_fault fault t = take_last t.recent_max (t.recent ++ fault ∷ [])

abbrev pub count_of : Option ℕ → ℕ
count_of none = 0
count_of (some n) = n

abbrev pub add_served : Bucket → Bucket
add_served b = record b { served = b.served + 1 }

abbrev pub add_refused : String → Bucket → Bucket
add_refused key b = record b {
  refused = b.refused + 1;
  refused_codes = Dict.put key (count_of (Dict.get key b.refused_codes) + 1) b.refused_codes;
}

abbrev pub add_no_progress : Bucket → Bucket
add_no_progress b = record b { no_progress = b.no_progress + 1 }

unfoldable pub served : Option String → PlayAttestationTracker → PlayAttestationTracker
unfolding on_bucket
served provider_id t = record t { buckets = on_bucket provider_id add_served t.buckets }

unfoldable pub refused :
    String
    → Option String
    → String
    → Option String
    → String
    → PlayAttestationTracker
    → PlayAttestationTracker
unfolding on_bucket
refused now provider_id item_id code surface t = record t {
  recent =
      append_fault
        record {
          at = now;
          outcome = PlayOutcome.refused_play;
          provider = bucket_key provider_id;
          item_id = item_id;
          code = code;
          surface = some surface;
        }
        t;
  buckets = on_bucket provider_id (add_refused (or_unknown code)) t.buckets;
}

unfoldable pub no_progress :
    String → Option String → String → PlayAttestationTracker → PlayAttestationTracker
unfolding on_bucket
no_progress now provider_id item_id t = record t {
  recent =
      append_fault
        record {
          at = now;
          outcome = PlayOutcome.no_progress_play;
          provider = bucket_key provider_id;
          item_id = item_id;
          code = none;
          surface = none;
        }
        t;
  buckets = on_bucket provider_id add_no_progress t.buckets;
}

unfoldable pub snapshot : PlayAttestationTracker → Dict String Bucket × List PlayFault
snapshot t = (sorted (λ x y. str_le x.0 y.0) t.buckets, t.recent)

abbrev pub reset : PlayAttestationTracker → PlayAttestationTracker
reset t = record t { recent = []; buckets = [] }
