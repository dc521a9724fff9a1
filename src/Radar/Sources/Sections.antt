-- ===== src/Radar/Sources/Sections.antt =====
-- The two lists of the sources, and a click on a subscription.
use linktheca.Prelude.{
  ℕ, zero, suc, ◌/◌, ◌+◌, ◌*◌, ◌≤◌, ◌<◌, ◌≡◌, refl, ap, Bool, true, false, List, [], ◌∷◌, arith,
  length, length-filter-not, append, ◌==◌, nat_eq, if◌then◌else◌, ltb,
}
use linktheca.Web.Number.{to_string}
use linktheca.Radar.Types.{FeedListItem}
use linktheca.Radar.Mutations.{set_subscribed}
use linktheca.Radar.Sources.{mine, catalog, subscribed_count, fmt_interval}

owned :
    (id : ℕ) (b : Bool) (fs : List FeedListItem)
    → mine (set_subscribed id b fs) ≡ set_subscribed id b (mine fs)
unfolding mine
owned id b [] = refl
owned id b (f ∷ fs) = ground (arith, owned id b fs)

shared :
    (id : ℕ) (b : Bool) (fs : List FeedListItem)
    → catalog (set_subscribed id b fs) ≡ set_subscribed id b (catalog fs)
unfolding catalog
shared id b [] = refl
shared id b (f ∷ fs) = ground (arith, shared id b fs)

fewer :
    (id : ℕ) (fs : List FeedListItem)
    → subscribed_count (set_subscribed id false fs) ≤ subscribed_count fs
unfolding subscribed_count
fewer id [] = omega arith
fewer id (f ∷ fs) = ground (arith, fewer id fs)

one : to_string 1 ≡ "1"
unfolding to_string
one = refl

hours :
    (n h : ℕ)
    → h ≡ suc n
    → (if ltb (3600 * suc n) 3600
        then append "every " (append (to_string ((2 * (3600 * suc n) + 60) / 120)) "m")
        else if h == 1
        then "every 1h"
        else append "every " (append (to_string h) "h"))
      ≡ append "every " (append (to_string (suc n)) "h")
hours zero h e = rw (e, one) refl
hours (suc n) h e =
    let long : ltb (3600 * suc (suc n)) 3600 ≡ false = ground arith in
    let many : (h == 1) ≡ false = ground (arith, e) in
    rw (long, many) (ap (λ (m : ℕ). append "every " (append (to_string m) "h")) e)

minutes :
    (n m : ℕ)
    → m ≡ n
    → n < 60
    → (if ltb (60 * n) 3600
        then append "every " (append (to_string m) "m")
        else if ((2 * (60 * n) + 3600) / 7200) == 1
        then "every 1h"
        else append "every " (append (to_string ((2 * (60 * n) + 3600) / 7200)) "h"))
      ≡ append "every " (append (to_string n) "m")
minutes n m e l =
    let short : ltb (60 * n) 3600 ≡ true = ground arith in
    rw short (ap (λ (k : ℕ). append "every " (append (to_string k) "m")) e)

-- Each feed stands in one of the two lists, a click on a subscription changes each list as it changes
-- the whole, and unsubscribing does not raise the count of subscriptions.
sections_lem :
    (items : List FeedListItem) (id : ℕ) (subscribed : Bool)
    → (length (mine items) + length (catalog items) ≡ length items)
      × (mine (set_subscribed id subscribed items) ≡ set_subscribed id subscribed (mine items))
      × (catalog (set_subscribed id subscribed items)
          ≡ set_subscribed id subscribed (catalog items))
      × (subscribed_count (set_subscribed id false items) ≤ subscribed_count items)
unfolding mine catalog subscribed_count
sections_lem items id subscribed = (
  length-filter-not (λ f. f.is_own) items,
  owned id subscribed items,
  shared id subscribed items,
  fewer id items,
)

-- Whole hours, and whole minutes below an hour, are written as such.
fmt_interval_lem :
    (n : ℕ)
    → (fmt_interval (3600 * suc n) ≡ append "every " (append (to_string (suc n)) "h"))
      × (n < 60 → fmt_interval (60 * n) ≡ append "every " (append (to_string n) "m"))
unfolding fmt_interval
fmt_interval_lem n = (
  hours n ((2 * (3600 * suc n) + 3600) / 7200) (omega arith),
  λ l. minutes n ((2 * (60 * n) + 60) / 120) (omega arith) l,
)
