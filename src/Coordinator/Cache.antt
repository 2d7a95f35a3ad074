-- ===== src/Coordinator/Cache.antt =====
-- crates/coordinator/src/cache_index.rs: which node has an artifact at which path.
use knitting_crab.Prelude.{
  ◌==◌, Bool, true, false, not, Option, none, some, List, [], ◌∷◌, ◌++◌, String, map, retain,
  TextMap, text_lookup, same_text, if◌then◌else◌,
}
use knitting_crab.Core.Task.{WorkerId}

pub record CacheIndexEntry : Type 0 where
  pub worker_id : WorkerId
  pub hostname : String
  pub path : String

-- `CacheLocation` of crates/transport/src/messages.rs.
pub record CacheLocation : Type 0 where
  pub worker_id : WorkerId
  pub hostname : String
  pub path : String

abbrev pub CacheIndex : Type 0
CacheIndex = TextMap (List CacheIndexEntry)

unfoldable pub new : CacheIndex
new = []

-- `entries.entry(key).or_default().push(entry)`
unfoldable pub announce : String → CacheIndexEntry → CacheIndex → CacheIndex
announce key entry [] = (key, entry ∷ []) ∷ []
announce key entry ((name, es) ∷ index) =
    let later = announce key entry index in
    if same_text name key then (name, es ++ entry ∷ []) ∷ index else (name, es) ∷ later

unfoldable pub to_location : CacheIndexEntry → CacheLocation
to_location e = record { worker_id = e.worker_id; hostname = e.hostname; path = e.path }

unfoldable pub locations : Option (List CacheIndexEntry) → List CacheLocation
unfolding to_location
locations none = []
locations (some es) = map to_location es

unfoldable pub query : String → CacheIndex → List CacheLocation
unfolding text_lookup locations
query key index = locations (text_lookup key index)

unfoldable pub drop_entries : WorkerId → CacheIndex → CacheIndex
drop_entries worker [] = []
drop_entries worker ((name, es) ∷ index) =
    (name, retain (λ e. not (e.worker_id == worker)) es) ∷ drop_entries worker index

abbrev pub has_entries : List CacheIndexEntry → Bool
has_entries [] = false
has_entries (e ∷ es) = true

unfoldable pub evict_node : WorkerId → CacheIndex → CacheIndex
unfolding drop_entries
evict_node worker index = retain (λ row. has_entries row.1) (drop_entries worker index)
