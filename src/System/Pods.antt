-- ===== src/System/Pods.antt =====
-- What the caches of a pod and Redis hold, through the calls on the pod.
use shortlink_system.Base.{
  ℕ, ◌≡◌, refl, sym, ◌∙◌, inl, inr, Option, some, List, Text, text_eq, text_eq_iff, Bool-cases,
  none,
}
use mathlib.Core.Path.{subst}
use mathlib.Core.Option.{some-injective}
use mathlib.Core.List.{Mem}
use shortlink_system.Snowflake.Order.{IsValid}
use shortlink_system.L1Cache.Contents.{Sound, Sound-map}
use shortlink_system.Redis.{Redis}
use shortlink_system.Redis.Entries.{Kept}
use shortlink_system.Service.{
  ShortLink, row, Weather, Answer, query, Shows, ShortLinkService, Reply, redirect, cache_key,
}
use shortlink_system.Service.Entries.{Holds}
use shortlink_system.Service.Answers.{Settled, redirect-Settled}
use shortlink_system.Service.Redirects.{Found, Right, answered, query_cases, contains_total}
use shortlink_system.Creation.Outcomes.{Coherent}
use shortlink_system.Rebuild.{Rounds, Ended, rebuild_bloom}
use shortlink_system.Rebuild.Serving.{rebuild_bloom_store, rebuild_loop_get}
use shortlink_system.System.{Deployment, World, Pod, creator, service, in_collation, filter}
use shortlink_system.System.Entries.{Truthful, Truthful-filter, Truthful-empty, Truthful-forward}
use shortlink_system.System.Creates.{filter_positive}

-- What a pod has for itself is right by the table.
pub record Held (d : Deployment) (links : List ShortLink) (p : Pod) : Type 0 where
  pub worker : IsValid p.node
  pub local : Sound (Truthful d.same_text links) p.l1_cache
  pub index : Sound (Truthful d.same_text links) p.url_hash_l1

pub Held-map :
    (d : Deployment) (links links' : List ShortLink) (p : Pod)
    → ((k v : Text) → Truthful d.same_text links k v → Truthful d.same_text links' k v)
    → Held d links p
    → Held d links' p
Held-map d links links' p f h = record {
  worker = h.worker;
  local = Sound-map (Truthful d.same_text links) (Truthful d.same_text links') f h.local;
  index = Sound-map (Truthful d.same_text links) (Truthful d.same_text links') f h.index;
}

module _ (r : Redis) (d : Deployment) (w : World r d) (p : Pod) (held : Held d w.tables.links p)
    (kept : Kept r (Truthful d.same_text w.tables.links) w.store) where
  abbrev True : Text → Text → Type 0
  True = Truthful d.same_text w.tables.links

  pub Held-Coherent : Coherent r (Truthful d.same_text) (creator r d w p)
  Held-Coherent = record {
    worker = held.worker;
    local = held.local;
    index = held.index;
    kept = kept;
  }

  module _ (t : Weather) (code : Text)
      (stored : (l : ShortLink) → Shows t l → Mem l w.tables.links) where
    -- A redirect on the pod answers right by the table, or panics.
    redirect-True :
        (shared : Option Answer)
        → ((a : Answer) → shared ≡ some a → Right d.same_text w.tables.links code a)
        → Settled r True
            (Right d.same_text w.tables.links code)
            Unit
            (redirect r (in_collation r d t) shared code (service r d w p))
    redirect-True shared others =
        let (b, e) = contains_total r filter t.bloom_run w.store code filter_positive in
        redirect-Settled r True (Right d.same_text w.tables.links code) Unit (in_collation r d t)
          code (λ v h. answered d.same_text w.tables.links code v h.0) rows
          (λ _. Truthful-empty d.same_text w.tables.links code) (λ _. tt) (λ _. tt)
          (service r d w p) shared (record { sound = held.local; kept = kept })
          (b, e, λ _ _. Truthful-empty d.same_text w.tables.links code) others
      where
        rows :
            (link : ShortLink)
            → query (in_collation r d t) code ≡ some (row link)
            → True (cache_key code) link.long_url
              × Found d.same_text w.tables.links code link.long_url
        rows link e =
            let (place, same) = query_cases (in_collation r d t) code link e in
            let at = stored link place in
            (Truthful-forward d.same_text w.tables.links link code at same, (link, at, same, refl))

    pub redirect-Held :
        (shared : Option Answer) (s : ShortLinkService r) (a : Answer)
        → ((a : Answer) → shared ≡ some a → Right d.same_text w.tables.links code a)
        → redirect r (in_collation r d t) shared code (service r d w p) ≡ some (s, a)
        → Sound True s.l1_cache × Kept r True s.store × Right d.same_text w.tables.links code a
    redirect-Held shared s a others e = elim (redirect-True shared others) [
      | inl (s', a', f, holds, right) ↦ at s' a' f holds right
      | inr (_, panics) ↦ absurd (clash (sym panics ∙ e))
    ]
      where
        clash : ◌≡◌ {A = Reply r} none (some (s, a)) → ⊥
        clash e = cc

        at :
            (s' : ShortLinkService r) (a' : Answer)
            → redirect r (in_collation r d t) shared code (service r d w p) ≡ some (s', a')
            → Holds r True s'
            → Right d.same_text w.tables.links code a'
            → Sound True s.l1_cache × Kept r True s.store × Right d.same_text w.tables.links code a
        at s' a' f holds right =
            let one : ◌≡◌ {A = ShortLinkService r × Answer} (s', a') (s, a) =
              some-injective _ _ (sym f ∙ e) in
            subst
              (λ (x : ShortLinkService r × Answer).
                Sound True x.0.l1_cache
                × Kept r True x.0.store
                × Right d.same_text w.tables.links code x.1)
              one (holds.sound, holds.kept, right)

  -- A rebuild writes nothing but the bits of the filter.
  pub rebuild_bloom-Kept :
      (rounds : Rounds) (fuel : ℕ) (s : ShortLinkService r) (how : Ended)
      → rebuild_bloom r rounds fuel (service r d w p) ≡ some (s, how)
      → Kept r True s.store
  rebuild_bloom-Kept rounds fuel s how e k v at =
      let loop = rebuild_bloom_store r rounds fuel (service r d w p) s how e in
      elim (Bool-cases (text_eq filter.key k)) [
        | inl same ↦
            subst (λ k. True k v) ((text_eq_iff filter.key k).0 same)
              (Truthful-filter d.same_text w.tables.links v)
        | inr other ↦
            kept k v (
              sym (rebuild_loop_get r filter rounds k other fuel 0 0 w.store s.store how loop) ∙ at)
      ]
