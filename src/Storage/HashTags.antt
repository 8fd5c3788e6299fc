-- ===== src/Storage/HashTags.antt =====
-- internal/repository/storage.go: keys with a hash tag of Redis Cluster.
use shortlink_system.Base.{ℕ, Option, none, some, [], ◌∷◌, ◌++◌, Text, bytes, ◌==◌, if◌then◌else◌}
use shortlink_system.Redis.{Redis}

-- `fmt.Sprintf("shortlink:{%s}", shortCode)`
unfoldable pub get_redis_key_with_hash_tag : Text → Text
get_redis_key_with_hash_tag short_code = bytes "shortlink:{" ++ short_code ++ bytes "}"

abbrev pub get_bloom_key_with_hash_tag : Text → Text
get_bloom_key_with_hash_tag short_code = bytes "sys:bloom:{shortcodes}"

-- What stands in front of the first `}`; `none` is -1 of `strings.Index`.
unfoldable pub until_brace : Text → Option Text
until_brace [] = none
until_brace (c ∷ key) =
    if c == b'}' then some [] else (elim (until_brace key) [ none ↦ none | some s ↦ some (c ∷ s) ])

unfoldable pub extract_hash_tag_key : Text → Text
unfolding until_brace
extract_hash_tag_key [] = []
extract_hash_tag_key (c ∷ key) =
    if c == b'{' then (elim (until_brace key) [ none ↦ c ∷ key | some tag ↦ tag ]) else c ∷ key

module _ (r : Redis) where
  unfoldable pub redis_set_with_hash_tag : Text → Text → ℕ → r.Store → r.Store
  unfolding get_redis_key_with_hash_tag
  redis_set_with_hash_tag short_code long_url ttl s =
      r.set s (get_redis_key_with_hash_tag short_code) long_url ttl

  unfoldable pub redis_get_with_hash_tag : Text → r.Store → Option Text
  unfolding get_redis_key_with_hash_tag
  redis_get_with_hash_tag short_code s = r.get s (get_redis_key_with_hash_tag short_code)
