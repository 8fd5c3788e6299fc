-- ===== src/Storage/Queries.antt =====
-- internal/repository/storage.go: the lookup by hash on a replica, which nothing calls, the database of
-- the writes, and the pings of the readiness probe.
use shortlink_system.Base.{ℕ, List, Option, none, some, Text, Bool, ◌&&◌, if◌then◌else◌}
use shortlink_system.Storage.{get_read_db}
use shortlink_system.Storage.Setup.{Storage}
use shortlink_system.Service.{Taken, row, not_found, broken, Replica}
use shortlink_system.Creation.{find_by_long_url_hash_from_master}

-- The counter afterwards, and the result; `none` is the panic of the choice.
unfoldable pub find_by_long_url_hash :
    (Text → Text → Bool) → Replica → List Replica → ℕ → Text → ℕ × Option Taken
unfolding get_read_db find_by_long_url_hash_from_master
find_by_long_url_hash same_text master_db slave_dbs read_index url_hash =
    let (idx, chosen) = get_read_db master_db slave_dbs read_index in
    (
      idx,
      elim chosen [
        | none ↦ none
        | some db ↦ some (
            if db.reachable
            then (elim (find_by_long_url_hash_from_master same_text url_hash db.links) [
              | none ↦ not_found
              | some link ↦ row link
            ])
            else broken)
      ],
    )

abbrev pub get_write_db : Storage → Text
get_write_db s = s.master_db

-- Whether no error is returned: the handle of the pool, and the ping on it.
abbrev pub ping_master : (Text → Bool) → (Text → Bool) → Storage → Bool
ping_master has_handle pings s = has_handle s.master_db && pings s.master_db
