-- ===== src/System/Invariant.antt =====
-- What holds of every world that can be reached.
use shortlink_system.Base.{
  ℕ, ◌≡◌, sym, ◌∙◌, inl, inr, none, some, List, false, ◌==◌, if◌then◌else◌, Bool-cases, All,
  All-get_elem?, arith,
}
use mathlib.Core.Path.{subst}
use mathlib.Core.Option.{some-injective}
use shortlink_system.Redis.{Redis}
use shortlink_system.Redis.Entries.{Kept}
use shortlink_system.OutboxWorker.{process_pending}
use shortlink_system.OutboxWorker.Contents.{process_pending-All}
use shortlink_system.Service.{ShortLink}
use shortlink_system.Service.Redirects.{Right}
use shortlink_system.Startup.Booted.{new_short_link_service-Fresh}
use shortlink_system.Delivery.{message_of}
use shortlink_system.Creation.{Creator}
use shortlink_system.Delivery.Arrival.{Faithful, body_of}
use shortlink_system.Startup.{Host, new_short_link_service}
use shortlink_system.System.{
  Deployment, World, Pod, put_pod, Step, starts, ends, creates, redirects, rebuilds, publishes,
  works, delivers, expires, Reach, initial, next,
}
use shortlink_system.System.Unique.{Collation, Distinct}
use shortlink_system.System.Entries.{Truthful}
use shortlink_system.System.Ledger.{
  Addressed, Told, Backed, Carries, Ledger, with_redirect, with_body, with_outbox,
}
use shortlink_system.System.Creates.{create-Coherent, Recorded-grows, Recorded-Ledger}
use shortlink_system.System.Pods.{Held, Held-map, Held-Coherent, redirect-Held, rebuild_bloom-Kept}
use shortlink_system.System.Deliveries.{handle_delivery-Held, or_old-Sound}

module _ (r : Redis) (d : Deployment) where
  -- The tables, the queue and the answers go together, and all entries of all caches are true.
  pub record Invariant (w : World r d) : Type 0 where
    pub ledger : Ledger d w.tables w.queue w.redirects w.creates
    pub held : (i : ℕ) (p : Pod) → w.pods i ≡ some p → Held d w.tables.links p
    pub kept : Kept r (Truthful d.same_text w.tables.links) w.store

  -- One pod changes.
  Held-put_pod :
      (links : List ShortLink) (i : ℕ) (q : Pod) (w : World r d)
      → Held d links q
      → ((j : ℕ) (p : Pod) → w.pods j ≡ some p → Held d links p)
      → (j : ℕ) (p : Pod) → (put_pod r d i q w).pods j ≡ some p
      → Held d links p
  Held-put_pod links i q w h hs j p e = elim (Bool-cases (i == j)) [
    | inl here ↦ subst (Held d links) (ground (arith, e, here)) h
    | inr other ↦ hs j p (ground (arith, e, other))
  ]

  -- A new pod has a valid node and empty caches.
  fresh-Held :
      (w : World r d) (h : Host) (s : Creator r)
      → new_short_link_service r h d.url_prefix w.store w.tables ≡ some s
      → Held d w.tables.links (record {
        node = s.node;
        l1_cache = s.l1_cache;
        url_hash_l1 = s.url_hash_l1;
        bloom_ready = false;
      })
  fresh-Held w h s e =
      let (s', f, fresh) = new_short_link_service-Fresh r h d.url_prefix w.store w.tables in
      let one : s' ≡ s = some-injective _ _ (sym f ∙ e) in
      subst
        (λ s. Held d w.tables.links (record {
          node = s.node;
          l1_cache = s.l1_cache;
          url_hash_l1 = s.url_hash_l1;
          bloom_ready = false;
        }))
        one
        (record {
          worker = fresh.worker;
          local = fresh.local (Truthful d.same_text w.tables.links);
          index = fresh.index (Truthful d.same_text w.tables.links);
        })

  module _ (same : Collation d.same_text) (faithful : Faithful d.json) where
    pub Step-Invariant : (w w' : World r d) → Step r d w w' → Invariant w → Invariant w'
    Step-Invariant w w' (starts i h s e) inv = record {
      ledger = inv.ledger;
      held = Held-put_pod w.tables.links i _ w (fresh-Held w h s e) inv.held;
      kept = inv.kept;
    }
    Step-Invariant w w' (ends i) inv = record {
      ledger = inv.ledger;
      held = λ j p e. inv.held j p (still j p e);
      kept = inv.kept;
    }
      where
        still : (j : ℕ) (p : Pod) → (if i == j then none else w.pods j) ≡ some p → w.pods j ≡ some p
        still j p e = ground (arith, e)
    Step-Invariant w w' (creates i p t long_url s a at e) inv =
        let (right, how) =
          create-Coherent r d same w p t long_url s a
            (Held-Coherent r d w p (inv.held i p at) inv.kept) e in
        record {
          ledger = Recorded-Ledger r d same w p t long_url s a how inv.ledger;
          held =
              Held-put_pod s.tables.links i _ w
                (record { worker = right.worker; local = right.local; index = right.index })
                (λ j q f.
                  Held-map d w.tables.links s.tables.links q
                    (Recorded-grows r d same w p t long_url s a how) (inv.held j q f));
          kept = right.kept;
        }
    Step-Invariant w w' (redirects i p t shared code s a at stored others e) inv =
        let h = inv.held i p at in
        let (local, kept, right) =
          redirect-Held r d w p h inv.kept t code stored shared s a
            (λ a f.
              let (n, g) = others a f in
              All-get_elem? (λ x. Right d.same_text w.tables.links x.0 x.1) w.redirects n
                inv.ledger.right g)
            e in
        record {
          ledger = with_redirect d inv.ledger code a right;
          held =
              Held-put_pod w.tables.links i _ w
                (record { worker = h.worker; local = local; index = h.index }) inv.held;
          kept = kept;
        }
    Step-Invariant w w' (rebuilds i p rounds fuel s how at e) inv =
        let h = inv.held i p at in
        record {
          ledger = inv.ledger;
          held =
              Held-put_pod w.tables.links i _ w
                (record { worker = h.worker; local = h.local; index = h.index }) inv.held;
          kept = rebuild_bloom-Kept r d w p h inv.kept rounds fuel s how e;
        }
    Step-Invariant w w' (publishes n m accepted p at e) inv =
        let told = All-get_elem? (Backed w.tables.links) w.tables.outbox n inv.ledger.backed at in
        let read = faithful (message_of m) p.body (body_of d.json accepted m p e) in
        record {
          ledger =
              with_body d inv.ledger p.body
                (λ msg f. subst (Told w.tables.links) (some-injective _ _ (sym read ∙ f)) told);
          held = inv.held;
          kept = inv.kept;
        }
    Step-Invariant w w' (works round worker) inv = record {
      ledger = with_outbox d inv.ledger (process_pending d.db round worker w.tables.outbox).1 (
          process_pending-All (Backed w.tables.links) (λ _ _ _ m h. h) (λ _ m h. h) (λ _ _ m h. h)
            d.db round worker w.tables.outbox inv.ledger.backed);
      held = inv.held;
      kept = inv.kept;
    }
    Step-Invariant w w' (delivers i p t n body c how at queued e) inv =
        let h = inv.held i p at in
        let (locals, kept) =
          handle_delivery-Held r d same w p h inv.kept t body c how
            (All-get_elem? (Carries d w.tables.links) w.queue n inv.ledger.carried queued) e in
        record {
          ledger = inv.ledger;
          held =
              Held-put_pod w.tables.links i _ w
                (record {
                  worker = h.worker;
                  local = locals.0;
                  index = or_old-Sound r d same w p h inv.kept c locals;
                })
                inv.held;
          kept = kept;
        }
    Step-Invariant w w' (expires store fewer) inv = record {
      ledger = inv.ledger;
      held = inv.held;
      kept = λ k v e. inv.kept k v (fewer k v e);
    }

    -- Every world that can be reached is in order.
    pub Reach-Invariant : (w : World r d) → Reach r d w → Invariant w
    Reach-Invariant w (initial start) = record {
      ledger = record {
        distinct = subst (Distinct d.same_text) (sym start.no_links) tt;
        hashed = subst (All (λ l. l.long_url_hash ≡ d.md5_hex l.long_url)) (sym start.no_links) tt;
        backed = subst (All (Backed w.tables.links)) (sym start.no_outbox) tt;
        carried = subst (All (Carries d w.tables.links)) (sym start.no_queue) tt;
        right =
            subst (All (λ x. Right d.same_text w.tables.links x.0 x.1)) (sym start.no_redirects) tt;
        addressed = subst (All (λ x. Addressed d w.tables.links x.0 x.1)) (sym start.no_creates) tt;
      };
      held = λ i p e. absurd (ground (arith, start.no_pods i, e));
      kept = λ k v e. absurd (ground (arith, start.no_keys k, e));
    }
    Reach-Invariant w (next {w = before} reach step) =
        Step-Invariant before w step (Reach-Invariant before reach)
