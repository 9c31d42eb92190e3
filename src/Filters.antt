-- ===== src/Filters.antt =====
-- src/types/log.rs: the builder of log filters, and whether a log was removed. A hash and an address
-- are numbers.
mod Build
mod Tests
use rust_web.Prelude.{ℕ, String, List, [], ◌∷◌, ◌++◌, Option, none, some, Bool, true, false, str_eq}

-- Log::is_removed, of the fields `removed` and `log_type`
unfoldable pub is_removed : Option Bool → Option String → Bool
is_removed (some val_removed) log_type = val_removed
is_removed none (some val_log_type) = str_eq val_log_type "removed"
is_removed none none = false

-- struct Filter
pub record Filter (BlockNumber : Type 0) : Type 0 where
  pub from_block : Option BlockNumber
  pub to_block : Option BlockNumber
  pub block_hash : Option ℕ
  pub address : Option (List ℕ)
  pub topics : Option (List (Option (List ℕ)))
  pub limit : Option ℕ

-- ethabi's Topic
pub data Topic : Type 0 where
  any : Topic
  one_of : List ℕ → Topic
  this : ℕ → Topic

-- topic_to_option
unfoldable pub topic_to_option : Topic → Option (List ℕ)
topic_to_option any = none
topic_to_option (one_of v) = some v
topic_to_option (this t) = some (t ∷ [])

-- Iterator::rev and Vec::reverse
abbrev pub reverse : List (Option (List ℕ)) → List (Option (List ℕ))
reverse [] = []
reverse (x ∷ xs) = reverse xs ++ x ∷ []

-- `skip_while(Option::is_none)`
abbrev pub skip_none : List (Option (List ℕ)) → List (Option (List ℕ))
skip_none [] = []
skip_none (none ∷ xs) = skip_none xs
skip_none (some v ∷ xs) = some v ∷ xs

-- The topics without those that are none at the end.
unfoldable pub trimmed : List (Option (List ℕ)) → List (Option (List ℕ))
trimmed topics = reverse (skip_none (reverse topics))

-- The methods of FilterBuilder.
pub data Method (BlockNumber : Type 0) : Type 0 where
  from_block : BlockNumber → Method BlockNumber
  to_block : BlockNumber → Method BlockNumber
  block_hash : ℕ → Method BlockNumber
  address : List ℕ → Method BlockNumber
  topics :
      Option (List ℕ) → Option (List ℕ) → Option (List ℕ) → Option (List ℕ) → Method BlockNumber
  topic_filter : Topic → Topic → Topic → Topic → Method BlockNumber
  limit : ℕ → Method BlockNumber

module _ {BlockNumber : Type 0} where
  abbrev pub with_topics : List (Option (List ℕ)) → Filter BlockNumber → Filter BlockNumber
  with_topics ts filter = record filter { topics = some (trimmed ts) }

  -- What a method makes of the filter.
  unfoldable pub set : Method BlockNumber → Filter BlockNumber → Filter BlockNumber
  unfolding trimmed
  set (from_block block) filter = record filter { block_hash = none; from_block = some block }
  set (to_block block) filter = record filter { block_hash = none; to_block = some block }
  set (block_hash hash) filter = record filter {
    from_block = none;
    to_block = none;
    block_hash = some hash;
  }
  set (address addresses) filter = record filter { address = some addresses }
  set (topics t1 t2 t3 t4) filter = with_topics (t1 ∷ t2 ∷ t3 ∷ t4 ∷ []) filter
  set (topic_filter t0 t1 t2 t3) filter =
      with_topics
        (topic_to_option t0 ∷ topic_to_option t1 ∷ topic_to_option t2 ∷ topic_to_option t3 ∷ [])
        filter
  set (limit n) filter = record filter { limit = some n }

  -- FilterBuilder::default
  abbrev pub default : Filter BlockNumber
  default = record {
    from_block = none;
    to_block = none;
    block_hash = none;
    address = none;
    topics = none;
    limit = none;
  }

  -- A chain of methods, and `build`.
  unfoldable pub build : List (Method BlockNumber) → Filter BlockNumber → Filter BlockNumber
  build [] filter = filter
  build (method ∷ methods) filter = build methods (set method filter)
