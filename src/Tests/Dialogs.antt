-- ===== src/Tests/Dialogs.antt =====
-- The dialogs, and the deletion of feeds.
use linktheca.Prelude.{
  ◌+◌, ◌≤◌, ◌≡◌, refl, String, true, false, not, none, some, List, [], ◌∷◌, map, arith, length,
  is_some, ◌==◌, string_eq, nat_eq,
}
use linktheca.Web.App.{ok, err}
use linktheca.Web.Http.{network_error}
use linktheca.Web.View.{offers}
use linktheca.Web.Dialog.{
  Handlers, Mounted, Dialog, Event, open_dialog, dismiss, change, submit, settled, step, run,
  closed,
}
use linktheca.Web.Dialog.Invariant.{IsValid}
use linktheca.Web.Dialog.Bound.{dismissals, in_flight_bound}
use linktheca.Web.Dialog.Refinement.{seen, act_all, flights, run_refines}
use linktheca.Web.Dialog.Closing.{last_of, stale_success_closes}
use linktheca.Library.Types.{LibraryItem}
use linktheca.Library.AddLink.{submit_link}
use linktheca.Library.AddLink.Popup as AddLink
use linktheca.Library.AddLink.Popup.{begin, progress_stages, get_elem?}
use linktheca.Radar.Dialogs.NewTopic
use linktheca.Radar.Dialogs.EditTopic
use linktheca.Radar.Dialogs.AddFeed
use linktheca.Radar.Dialogs.AddFeed.{Scope, Values}
use linktheca.Radar.Dialogs.{TopicValues, FeedValues}
use linktheca.Radar.Types.{TopicWithStats, FeedListItem}
use linktheca.Radar.Dialogs.EditFeed
use linktheca.Radar.Dialogs.Controls.{Controls, popups_offer}
use linktheca.Radar.Preview.Markup
use linktheca.Radar.Cards.{Display}
use linktheca.Radar.Sources.Deleting.{
  Deleting, idle, personal, told_of, ask, confirm, settled as ended,
}
use linktheca.Radar.Sources.Deleting
use linktheca.Radar.Sources.Deleting.Asked.{
  on_its_way, is_confirm, deletions_reported, question_lost,
}
use linktheca.Radar.Sources.Pages.{delete_confirm}
use linktheca.Tests.Fixtures.{article, feed_5}

-- Any text that is not empty serves as a URL.
abbrev link : Handlers (Unit {0}) String String LibraryItem
link = AddLink.handlers (λ s. not (s == ""))

-- A link is entered and saved.
abbrev entering : List (Event (Unit {0}) String LibraryItem)
entering = open_dialog tt ∷ submit ∷ change "https://a.org" ∷ submit ∷ []

entering_waits : (run link entering closed).in_flight ≡ 0 ∷ []
unfolding run AddLink.handlers AddLink.url_errors
entering_waits = refl

abbrev reopened : List (Event (Unit {0}) String LibraryItem)
reopened =
    open_dialog tt ∷ change "a" ∷ submit ∷ dismiss ∷ open_dialog tt ∷ change "b" ∷ submit ∷ []

two_on_their_way : (run link reopened closed).in_flight ≡ 1 ∷ 0 ∷ []
unfolding run AddLink.handlers AddLink.url_errors
two_on_their_way = refl

in_flight_bound_example : length (run link reopened closed).in_flight ≤ dismissals reopened + 1
in_flight_bound_example = in_flight_bound link reopened

abbrev saved : List (Event (Unit {0}) String LibraryItem)
saved =
    open_dialog tt
    ∷ change "a"
    ∷ submit
    ∷ settled 0 (err network_error)
    ∷ submit
    ∷ settled 0 (ok article)
    ∷ []

run_refines_example :
    (seen (run link saved closed) ≡ act_all link saved (seen closed))
    × ((run link saved closed).in_flight ≡ flights (run link saved closed).form)
unfolding step AddLink.handlers AddLink.url_errors submit_link
run_refines_example = run_refines link saved closed refl (tt, (tt, (tt, (refl, (tt, (refl, tt))))))

abbrev waiting_form : Mounted (Unit {0}) String
waiting_form = record {
  number = 0;
  subject = tt;
  values = "https://a.org";
  errors = [];
  top_error = none;
  is_submitted = true;
  is_pending = true;
}

abbrev waiting : Dialog (Unit {0}) String String
waiting = record {
  form = some waiting_form;
  mounts = 1;
  in_flight = 0 ∷ [];
  sent = "https://a.org" ∷ [];
  told = [];
}

waiting-IsValid : IsValid waiting
waiting-IsValid = record {
  below = (omega arith, tt);
  distinct = (refl, tt);
  waits = (omega arith, refl);
}

stale_success_closes_example :
    let t = run link (dismiss ∷ open_dialog tt ∷ map change ("h" ∷ "ht" ∷ [])) waiting in
    ((g : Mounted (Unit {0}) String) × (t.form ≡ some g)
      × (g.values ≡ last_of (link.defaults tt) ("h" ∷ "ht" ∷ [])))
    × ((step link (settled 0 (ok article)) t).form ≡ none)
unfolding AddLink.handlers submit_link
stale_success_closes_example =
    stale_success_closes link waiting waiting_form tt ("h" ∷ "ht" ∷ []) article waiting-IsValid refl
      refl refl

popups_offer_example :
    Controls (AddLink.view true 0 (some waiting_form)) (some waiting_form)
    × Controls {S = Unit {0}} {V = TopicValues}
        (NewTopic.view (Markup.view (λ x. "") (λ u. u) (λ a b. true) 3 false none none) none)
        none
    × Controls {S = TopicWithStats} {V = TopicValues} (EditTopic.view none) none
    × Controls {S = Unit {0}} {V = Values} (AddFeed.view Scope.global none) none
    × Controls {S = FeedListItem} {V = FeedValues} (EditFeed.view none) none
popups_offer_example =
    popups_offer true 0 (some waiting_form) (λ x. "") (λ u. u) (λ a b. true) 3 false none none none
      none Scope.global none none

abbrev pub display : Display
display = record {
  host = λ u. u;
  relative_from_now = λ t. "today";
  fmt_last_match = λ t. "—";
  fmt_date = λ t. "1970-01-01";
}

deletions_reported_example :
    let s = Deleting.run personal (ask feed_5 ∷ confirm ∷ ended (ok tt) ∷ []) idle in
    length s.sent ≡ length s.told + on_its_way s.in_flight
deletions_reported_example = deletions_reported personal (ask feed_5 ∷ confirm ∷ ended (ok tt) ∷ [])

abbrev deleting_5 : Deleting
deleting_5 = record { deleting = none; in_flight = some 5; sent = 5 ∷ []; told = [] }

question_lost_example :
    (offers is_confirm (
        delete_confirm display
          (some feed_5)
          (is_some (Deleting.step personal (ask feed_5) deleting_5).in_flight))
      ≡ false)
    × (Deleting.run personal (ask feed_5 ∷ ended (ok tt) ∷ []) deleting_5 ≡ record deleting_5 {
      deleting = none;
      in_flight = none;
      told = told_of personal (ok tt) ∷ [];
    })
question_lost_example = question_lost personal display deleting_5 5 feed_5 (ok tt) refl
