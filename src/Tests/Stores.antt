-- ===== src/Tests/Stores.antt =====
-- The other operations of the store.
use shortlink_system.Base.{◌≡◌, refl, some, [], ◌∷◌, bytes, text_eq, true}
use shortlink_system.Storage.HashTags.{extract_hash_tag_key}
use shortlink_system.Storage.Setup.{client, new_storage}

tag_of_key : extract_hash_tag_key (bytes "{user}:profile") ≡ bytes "user"
unfolding extract_hash_tag_key
tag_of_key = refl

plain_key : extract_hash_tag_key (bytes "plain-key") ≡ bytes "plain-key"
unfolding extract_hash_tag_key
plain_key = refl

empty_tag : extract_hash_tag_key (bytes "{}:empty") ≡ []
unfolding extract_hash_tag_key
empty_tag = refl

open_brace : extract_hash_tag_key (bytes "{broken") ≡ bytes "{broken"
unfolding extract_hash_tag_key
open_brace = refl

-- A slave that is down is left out.
connected :
    new_storage
      (record { opens = λ dsn. true; has_handle = λ dsn. text_eq dsn (bytes "m") })
      (λ c. true)
      (record {
        master_dsn = bytes "m";
        slave_dsns = bytes "s" ∷ [];
        redis_addrs = bytes "r" ∷ [];
        redis_pass = [];
      })
    ≡ some (record {
      master_db = bytes "m";
      slave_dbs = [];
      redis_client = client (bytes "r");
      read_index = 0;
    })
unfolding new_storage text_eq
connected = refl
