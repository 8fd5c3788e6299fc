-- ===== src/Service/Syncing.antt =====
-- A link that Redis and the filter have is not undone by the pipeline of another one.
use shortlink_system.Base.{
  ℕ, ◌≡◌, sym, ◌∙◌, some, List, [], ◌∷◌, Text, text_eq, text_eq_comm, true, false, All, Bool-cases,
  Option-cases, inl, inr, arith,
}
use shortlink_system.Redis.{Redis}
use shortlink_system.Redis.Pipelines.{Command, Outcome, exec, Spares}
use shortlink_system.Redis.Entries.{Fits, exec-Fits}
use shortlink_system.Bloom.{RedisBloomFilter, offsets, contains, contains_script}
use shortlink_system.Bloom.Membership.{AllSet, AllSet-exec, contains_script-one}
use shortlink_system.Service.{cache_key}
use shortlink_system.Service.Redirects.{cache_key_injective}
use shortlink_system.Service.WriteThrough.{
  url_hash_key, url_hash_key_injective, keys_apart, sync_commands, Synced,
}
use shortlink_system.Service.Pipelines.{sync_commands-All}

module _ (r : Redis) (bf : RedisBloomFilter) where
  contains_script-AllSet :
      (s : r.Store) (os : List ℕ) → contains_script r s bf.key os ≡ 1 → AllSet r s bf.key os
  unfolding contains_script
  contains_script-AllSet s [] e = tt
  contains_script-AllSet s (o ∷ os) e = elim (Bool-cases (r.get_bit s bf.key o)) [
    | inl t ↦ (t, contains_script-AllSet s os (ground (arith, e, t)))
    | inr f ↦ absurd (ground (arith, e, f))
  ]

  -- A pipeline that spares the filter keeps its members.
  contains-exec :
      (o : Outcome) (s : r.Store) (cs : List Command) (code : Text)
      → All (Spares r bf.key) cs
      → contains r bf true s code ≡ some (some true)
      → contains r bf true (exec r o s cs) code ≡ some (some true)
  unfolding contains
  contains-exec o s cs code h e = elim (Option-cases (offsets bf code)) [
    | inl bad ↦ absurd (ground (arith, e, bad))
    | inr (os, good) ↦
        let bits = contains_script-AllSet s os (ground (arith, e, good)) in
        ground (
          arith,
          good,
          contains_script-one r (exec r o s cs) bf.key os (AllSet-exec r o s bf.key os cs h bits),
        )
  ]

  module _ (code long_url url_hash code' long_url' url_hash' : Text)
      (same_url : code' ≡ code → long_url' ≡ long_url)
      (same_code : url_hash' ≡ url_hash → code' ≡ code)
      (cache_apart : (c : Text) → text_eq bf.key (cache_key c) ≡ false)
      (index_apart : (h : Text) → text_eq bf.key (url_hash_key h) ≡ false) where
    pub exec-Synced :
        (ttl : ℕ) (pipe : List Command)
        → sync_commands bf code' long_url' url_hash' ttl ≡ some pipe
        → (o : Outcome) (s : r.Store) → Synced r bf code long_url url_hash s
        → Synced r bf code long_url url_hash (exec r o s pipe)
    exec-Synced ttl pipe e o s h = record {
      forward = exec-Fits r (cache_key code) long_url o s pipe h.forward (
          sync_commands-All (Fits (cache_key code) long_url) bf (λ i. cache_apart code) r code'
            long_url' url_hash' ttl pipe (λ k. same_url (cache_key_injective code' code k))
            (λ k. absurd (keys_apart code url_hash' (sym k))) e);
      reverse = exec-Fits r (url_hash_key url_hash) code o s pipe h.reverse (
          sync_commands-All (Fits (url_hash_key url_hash) code) bf (λ i. index_apart url_hash) r
            code' long_url' url_hash' ttl pipe (λ k. absurd (keys_apart code' url_hash k))
            (λ k. same_code (url_hash_key_injective url_hash' url_hash k)) e);
      member =
          contains-exec o s pipe code
            (sync_commands-All (Spares r bf.key) bf (λ i. tt) r code' long_url' url_hash' ttl pipe
              (text_eq_comm (cache_key code') bf.key ∙ cache_apart code')
              (text_eq_comm (url_hash_key url_hash') bf.key ∙ index_apart url_hash') e)
            h.member;
    }
