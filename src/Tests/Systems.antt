-- ===== src/Tests/Systems.antt =====
-- Two pods, a link that is asked for twice, and its redirects.
use shortlink_system.Base.{
  ℕ, ◌≡◌, ◌≢◌, get_elem?, refl, ap, ◌∙◌, none, some, List, [], ◌∷◌, Text, bytes, text_eq,
  text_eq_refl, true, false, inl, inr,
}
use shortlink_system.Redis.Memory.{memory}
use shortlink_system.Creation.{Created, short_url, create}
use shortlink_system.Service.{ShortLink, Replica, Shows, Answer, url}
use shortlink_system.Storage.{get_read_db}
use mathlib.Core.Path.{subst}
use shortlink_system.System.{creator, in_deployment, Step, creates, redirects, Reach, next}
use shortlink_system.System.Safety.{
  creates_agree, creates_differ, creates-redirects, redirects_agree,
}
use shortlink_system.System.Registry.{Registers}
use shortlink_system.System.Refinement.{url_of, World_refines}
use mathlib.Core.List.{Mem, not-mem-nil}
use shortlink_system.Tests.Deliveries.{json-Faithful}
use shortlink_system.Tests.Worlds.{
  deployment, text_eq-Collation, two_pods, two_pods-Reach, pod, pod_2, pod_3, call, once, twice,
  thrice, served, short_x, cut_off, redirected, pod_4, again, served_again, conditions_at, happens,
}
use shortlink_system.Base62.Alphabet.{default_alphabet-IsAlphabet}
use shortlink_system.System.Creates.{create-Rules, filter_positive}
use shortlink_system.System.Pods.{Held-Coherent}
use shortlink_system.System.Entries.{Truthful}
use shortlink_system.System.Invariant.{Reach-Invariant}
use shortlink_system.Creation.Outcomes.{Coherent, Returns}
use shortlink_system.Creation.Transactions.{create-Returns}

-- One call after the other.
once-Reach : Reach memory deployment once
once-Reach = next two_pods-Reach (
    creates 1 pod (conditions_at 1) (bytes "http://x") (call 1 (bytes "http://x") pod two_pods).0
      (call 1 (bytes "http://x") pod two_pods).1 refl happens.0)

second_call : Step memory deployment once twice
second_call =
    creates 2 pod (conditions_at 2) (bytes "http://x") (call 2 (bytes "http://x") pod once).0
      (call 2 (bytes "http://x") pod once).1 refl happens.1

third_call : Step memory deployment twice thrice
third_call =
    creates 2 pod_2 (conditions_at 3) (bytes "http://y") (call 3 (bytes "http://y") pod_2 twice).0
      (call 3 (bytes "http://y") pod_2 twice).1 refl happens.2

thrice-Reach : Reach memory deployment thrice
thrice-Reach = next (next once-Reach second_call) third_call

-- Neither database can be reached, so none shows a row.
no_rows : (l : ShortLink) (links : List ShortLink) → Shows cut_off l → Mem l links
unfolding get_read_db
no_rows l links (inl (replica, is, at)) =
    absurd (not-mem-nil (subst (λ (db : Replica). Mem l db.links) (same is) at))
  where
    same :
        {replica : Replica}
        → some (record { reachable = false; links = [] }) ≡ some replica
        → replica ≡ record { reachable = false; links = [] }
    same e = cc
no_rows l links (inr at) = absurd (not-mem-nil at)

nobody : (a : Answer) → none ≡ some a → ⊥
nobody a e = cc

redirects_once : Step memory deployment thrice served
redirects_once =
    redirects 2 pod_3 cut_off none short_x redirected.0 redirected.1 refl
      (λ l. no_rows l thrice.tables.links) (λ a e. absurd (nobody a e)) happens.3

redirects_again : Step memory deployment served served_again
redirects_again =
    redirects 2 pod_4 cut_off none short_x again.0 again.1 refl (λ l. no_rows l served.tables.links)
      (λ a e. absurd (nobody a e)) happens.6

served-Reach : Reach memory deployment served
served-Reach = next thrice-Reach redirects_once

-- What was answered, by its place.
asked :
    (n : ℕ) (x : Text × Created)
    → get_elem?
        ((bytes "http://y", short_url (bytes "https://s/zFynbh"))
          ∷ (bytes "http://x", short_url (bytes "https://s/zF9J0T"))
          ∷ (bytes "http://x", short_url (bytes "https://s/zF9J0T"))
          ∷ [])
        n
      ≡ some x
    → get_elem? served.creates n ≡ some x
asked n x e = ap (λ l. get_elem? l n) happens.4 ∙ e

creates_agree_example : bytes "https://s/zF9J0T" ≡ bytes "https://s/zF9J0T"
creates_agree_example =
    creates_agree memory deployment text_eq-Collation json-Faithful served served-Reach 2 1
      (bytes "http://x") (bytes "http://x") (bytes "https://s/zF9J0T") (bytes "https://s/zF9J0T")
      (asked 2 _ refl) (asked 1 _ refl) (text_eq_refl (bytes "http://x"))

creates_differ_example : bytes "https://s/zFynbh" ≢ bytes "https://s/zF9J0T"
unfolding text_eq
creates_differ_example =
    creates_differ memory deployment text_eq-Collation json-Faithful served served-Reach 0 1
      (bytes "http://y") (bytes "http://x") (bytes "https://s/zFynbh") (bytes "https://s/zF9J0T")
      (asked 0 _ refl) (asked 1 _ refl) refl

redirect_answer : get_elem? served.redirects 0 ≡ some (short_x, url (bytes "http://x"))
redirect_answer = ap (λ l. get_elem? l 0) happens.5

creates-redirects_example : text_eq (bytes "http://x") (bytes "http://x") ≡ true
creates-redirects_example =
    creates-redirects memory deployment text_eq-Collation json-Faithful served served-Reach 1 0
      (bytes "http://x") short_x short_x (bytes "http://x") (asked 1 _ refl) redirect_answer
      (text_eq_refl short_x)

World_refines_example :
    Registers text_eq (url_of memory deployment thrice) (url_of memory deployment served)
    × ((n : ℕ) (code v : Text)
        → get_elem? served.redirects n ≡ some (code, url v)
        → url_of memory deployment served code ≡ some v)
World_refines_example =
    World_refines memory deployment text_eq-Collation json-Faithful thrice served thrice-Reach
      redirects_once

redirects_agree_example : bytes "http://x" ≡ bytes "http://x"
redirects_agree_example =
    redirects_agree memory deployment text_eq-Collation json-Faithful served_again
      (next served-Reach redirects_again) 0 1 short_x short_x (bytes "http://x") (bytes "http://x")
      (ap (λ l. get_elem? l 0) happens.7) (ap (λ l. get_elem? l 1) happens.7) (text_eq_refl short_x)

-- Every entry of the pods that have just come up is true.
start-Coherent : Coherent memory (Truthful text_eq) (creator memory deployment two_pods pod)
start-Coherent =
    let inv =
      Reach-Invariant memory deployment text_eq-Collation json-Faithful two_pods two_pods-Reach in
    Held-Coherent memory deployment two_pods pod (inv.held 1 pod refl) inv.kept

create-Returns_example :
    Returns memory
      (Truthful text_eq)
      (in_deployment memory deployment (conditions_at 1))
      (bytes "http://x")
      (creator memory deployment two_pods pod)
      (create memory
        (in_deployment memory deployment (conditions_at 1))
        (bytes "http://x")
        (creator memory deployment two_pods pod))
unfolding shortlink_system.Base62.new_base62
create-Returns_example =
    create-Returns memory (Truthful text_eq) (in_deployment memory deployment (conditions_at 1))
      (bytes "http://x") (creator memory deployment two_pods pod) default_alphabet-IsAlphabet
      filter_positive
      (create-Rules memory deployment text_eq-Collation two_pods pod (conditions_at 1)
        (bytes "http://x"))
      start-Coherent
