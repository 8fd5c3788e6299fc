-- ===== src/Queue/Draining.antt =====
-- What becomes of the messages of a queue.
use shortlink_system.Base.{
  ℕ, zero, suc, ◌+◌, ◌<◌, ◌≤◌, ◌≡◌, refl, sym, ◌∙◌, Option, none, some, List, [], ◌∷◌, Text, Bool,
  true, false, length, All, Option-cases, inl, inr, arith,
}
use mathlib.Core.Path.{subst}
use mathlib.Core.Option.{some-injective}
use shortlink_system.Consumer.{CacheUpdateMessage}
use shortlink_system.Queue.{Json, Disposition, ack, discard, requeue, handle_delivery}

-- The broker: where a message comes to stand that was given back. It keeps its place or another one,
-- in front of any message that waits or behind it.
pub record Broker : Type 1 where
  pub back : Text → List Text → List Text
  pub length-back :
      (body : Text) (queue : List Text) → length (back body queue) ≡ suc (length queue)
  pub All-back :
      (P : Text → Type 0) (body : Text) (queue : List Text)
      → All P (back body queue)
      → P body × All P queue
  pub back-All :
      (P : Text → Type 0) (body : Text) (queue : List Text)
      → P body
      → All P queue
      → All P (back body queue)

module _ {S : Type 0} (broker : Broker) (json : Json)
    (callback : CacheUpdateMessage → S → Option (S × Bool)) where
  -- The messages that wait and the state of the consumer after so many deliveries of the head.
  unfoldable pub session : ℕ → List Text → S → Option (List Text × S)
  unfolding handle_delivery
  session zero queue s = some (queue, s)
  session (suc n) [] s = some ([], s)
  session (suc n) (body ∷ queue) s = elim (handle_delivery json callback body s) [
    | none ↦ none
    | some (s', ack) ↦ session n queue s'
    | some (s', discard) ↦ session n queue s'
    | some (s', requeue) ↦ session n (broker.back body queue) s'
  ]

  module _ (outage : S → ℕ) (Ok : S → Type 0) (Good : CacheUpdateMessage → Type 0)
      (Done : CacheUpdateMessage → S → Type 0) where
    -- The body is garbage or a message that is expected.
    abbrev pub Expected : Text → Type 0
    Expected body = (msg : CacheUpdateMessage) → json.unmarshal body ≡ some msg → Good msg

    -- What one delivery of a body does between two states.
    data Delivered (body : Text) (s s' : S) : Type 0 where
      discarded :
          handle_delivery json callback body s ≡ some (s', discard)
          → outage s' ≤ outage s
          → json.unmarshal body ≡ none
          → Delivered body s s'
      acknowledged :
          handle_delivery json callback body s ≡ some (s', ack)
          → outage s' ≤ outage s
          → ((msg : CacheUpdateMessage) → json.unmarshal body ≡ some msg → Done msg s')
          → Delivered body s s'
      given_back :
          handle_delivery json callback body s ≡ some (s', requeue)
          → outage s' < outage s
          → Delivered body s s'

    module _
        (works : (msg : CacheUpdateMessage) (s : S)
          → Good msg
          → Ok s
          → (s' : S) × (ok : Bool) × (callback msg s ≡ some (s', ok))
            × Ok s'
            × (ok ≡ true → (outage s' ≤ outage s) × Done msg s')
            × (ok ≡ false → outage s' < outage s))
        (keeps : (msg other : CacheUpdateMessage) (s s' : S) (ok : Bool)
          → Good msg
          → Good other
          → Ok s
          → Done msg s
          → callback other s ≡ some (s', ok)
          → Done msg s') where
      delivery_cases :
          (body : Text) (s : S) → Expected body → Ok s → (s' : S) × Delivered body s s' × Ok s'
      unfolding handle_delivery
      delivery_cases body s fine fit = elim (Option-cases (json.unmarshal body)) [
        | inl bad ↦ (s, discarded (simp (handle_delivery, bad) refl) (omega arith) bad, fit)
        | inr (msg, good) ↦
            let (t, ok, called, fits, better, worse) = works msg s (fine msg good) fit in
            go msg good t ok called fits better worse
      ]
        where
          go :
              (msg : CacheUpdateMessage)
              → json.unmarshal body ≡ some msg
              → (t : S) (ok : Bool) → callback msg s ≡ some (t, ok)
              → Ok t
              → (ok ≡ true → (outage t ≤ outage s) × Done msg t)
              → (ok ≡ false → outage t < outage s)
              → (s' : S) × Delivered body s s' × Ok s'
          go msg good t true called fits better worse = (
            t,
            acknowledged (simp (handle_delivery, good, called) refl) (better refl).0
                (λ m e. subst (λ k. Done k t) (some-injective _ _ (sym good ∙ e)) (better refl).1),
            fits,
          )
          go msg good t false called fits better worse =
              (t, given_back (simp (handle_delivery, good, called) refl) (worse refl), fits)

      -- What is done stays done.
      handle_delivery-keeps :
          (msg : CacheUpdateMessage) (body : Text) (s s' : S) (answer : Disposition)
          → Good msg
          → Expected body
          → Ok s
          → Done msg s
          → handle_delivery json callback body s ≡ some (s', answer)
          → Done msg s'
      unfolding handle_delivery
      handle_delivery-keeps msg body s s' answer g fine fit d e =
          elim (Option-cases (json.unmarshal body)) [
            | inl bad ↦ subst (Done msg) (ground (arith, e, bad)) d
            | inr (other, good) ↦
                let (t, ok, called, _, _, _) = works other s (fine other good) fit in
                subst (Done msg) (ground (arith, e, good, called))
                  (keeps msg other s t ok g (fine other good) fit d called)
          ]

      session-keeps :
          (n : ℕ) (queue queue' : List Text) (s s' : S) (msg : CacheUpdateMessage)
          → Good msg
          → All Expected queue
          → Ok s
          → session n queue s ≡ some (queue', s')
          → Done msg s
          → Done msg s'
      unfolding session
      session-keeps zero queue queue' s s' msg g fine fit e d = subst (Done msg) (ground arith) d
      session-keeps (suc n) [] queue' s s' msg g fine fit e d = subst (Done msg) (ground arith) d
      session-keeps (suc n) (body ∷ queue) queue' s s' msg g (fine, fines) fit e d =
          let (t, how, fits) = delivery_cases body s fine fit in
          elim how [
            | discarded f _ _ ↦
                session-keeps n queue queue' t s' msg g fines fits (rw (session, f) at e)
                  (handle_delivery-keeps msg body s t discard g fine fit d f)
            | acknowledged f _ _ ↦
                session-keeps n queue queue' t s' msg g fines fits (rw (session, f) at e)
                  (handle_delivery-keeps msg body s t ack g fine fit d f)
            | given_back f _ ↦
                session-keeps n (broker.back body queue) queue' t s' msg g
                  (broker.back-All Expected body queue fine fines) fits (rw (session, f) at e)
                  (handle_delivery-keeps msg body s t requeue g fine fit d f)
          ]

      -- The queue drains. If all bodies that can be decoded are expected, a call of the callback that
      -- fails uses up a part of the outage, and what is done is not undone, then after as many
      -- deliveries as the outage and the length of the queue together no message waits any more, and
      -- each one that can be decoded is done, wherever the broker puts the messages that are given back.
      pub session-drains :
          (n : ℕ) (queue : List Text) (s : S)
          → All Expected queue
          → Ok s
          → outage s + length queue ≤ n
          → (s' : S) × (session n queue s ≡ some ([], s'))
            × All
                (λ body. (msg : CacheUpdateMessage) → json.unmarshal body ≡ some msg → Done msg s')
                queue
      unfolding session
      session-drains zero [] s fine fit h = (s, refl, tt)
      session-drains (suc n) [] s fine fit h = (s, refl, tt)
      session-drains zero (body ∷ queue) s fine fit h = absurd (omega arith)
      session-drains (suc n) (body ∷ queue) s (fine, fines) fit h =
          let (t, how, fits) = delivery_cases body s fine fit in
          elim how [
            | discarded f le none_there ↦
                let (s', e, done) = session-drains n queue t fines fits (omega arith) in
                (s', rw (session, f) e, (λ msg k. absurd (clash (sym none_there ∙ k)), done))
            | acknowledged f le now ↦
                let (s', e, done) = session-drains n queue t fines fits (omega arith) in
                (
                  s',
                  rw (session, f) e,
                  (
                    λ msg k.
                        session-keeps n queue [] t s' msg (fine msg k) fines fits e (now msg k),
                    done,
                  ),
                )
            | given_back f lt ↦
                let (s', e, done) =
                  session-drains n (broker.back body queue) t
                    (broker.back-All Expected body queue fine fines) fits
                    (omega (arith, broker.length-back body queue)) in
                (s', rw (session, f) e, broker.All-back _ body queue done)
          ]
        where
          clash : {m : CacheUpdateMessage} → none ≡ some m → ⊥
          clash e = cc
