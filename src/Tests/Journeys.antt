-- ===== src/Tests/Journeys.antt =====
-- A sign-in on the way to a page, dialogs that are filled in wrong and then right, and a description
-- that is typed under the eyes of the preview.
use linktheca.Prelude.{
  ℕ, ◌≡◌, inl, inr, refl, String, Bool, true, false, not, none, some, List, [], ◌∷◌, arith, All,
  ◌==◌, string_eq, if◌then◌else◌,
}
use linktheca.Web.Http.{Host, response, is_ok}
use linktheca.Web.App.{World}
use linktheca.Web.Form.{succeeded}
use linktheca.Web.Dialog.{Event, open_dialog, change, submit, step, run, closed}
use linktheca.Auth.Session.{LoginInput}
use linktheca.Auth.Store.{anonymous}
use linktheca.Web.Text.{text_length}
use linktheca.Auth.Forms.{submit_login}
use linktheca.Library.Types.{LibraryItem}
use linktheca.Library.AddLink.Popup as AddLink
use linktheca.Radar.Types.{Topic, TopicWithStats, FeedListItem}
use linktheca.Radar.Dialogs.{TopicValues, FeedValues}
use linktheca.Radar.Dialogs.NewTopic as NewTopic
use linktheca.Radar.Dialogs.EditTopic as EditTopic
use linktheca.Radar.Dialogs.AddFeed as AddFeed
use linktheca.Radar.Dialogs.EditFeed as EditFeed
use linktheca.Radar.Dialogs.Valid.{IsProper, IsTopicUpdate, IsFeedUpdate, requests_valid}
use linktheca.Web.Debounce as Debounce
use linktheca.Web.Debounce.Settling.{last_value}
use linktheca.Radar.Preview.Asking as Asking
use linktheca.Radar.Preview.Asking.{passed, start, run as run_panel}
use linktheca.Radar.Preview.Asking.Typing.{typing, asked_by, typing_asks_once}
use linktheca.Web.Location.{Location}
use linktheca.Shell.Routes.{Element, layout, protected, page, library_list, inbox}
use linktheca.Shell.Routes.Returning.{Returns, sign_in_returns}
use linktheca.Tests.Fixtures.{host, reply, tokens, pair, fresh, topic_4, feed_5}

abbrev server : Host
server = host (response (reply 200 (some (tokens "a" "r"))) ∷ [])

abbrev credentials : LoginInput
credentials = record { email = "ann@example.org"; password = "secret" }

abbrev visitor : World
visitor = record (fresh none) {
  auth = record { access_token = none; user = none; status = anonymous };
}

abbrev pick : String → List Element
pick to =
    if to == "/library"
    then layout ∷ protected ∷ layout ∷ page library_list ∷ []
    else layout ∷ protected ∷ layout ∷ page inbox ∷ []

-- The filters of the inbox are in its address.
abbrev filtered_inbox : Location
filtered_inbox = record { pathname = "/radar"; search = "?state=all"; hash = "" }

sign_in_returns_example :
    ((submit_login server credentials visitor).0 ≡ succeeded [])
    × Returns filtered_inbox visitor.auth (submit_login server credentials visitor).1.auth pick
unfolding is_ok
sign_in_returns_example =
    sign_in_returns server visitor (reply 200 (some (tokens "a" "r"))) (tokens "a" "r")
      (pair "a" "r") pick filtered_inbox credentials (inr (inr (inr (inr (inr (inl refl)))))) refl
      refl (λ e. omega arith) refl refl refl

abbrev is_url : String → Bool
is_url s = not (s == "")

-- The form is submitted with the first values, and again with the second.
abbrev entered : {S V R : Type 0} → S → V → V → List (Event S V R)
entered x v w = open_dialog x ∷ change v ∷ submit ∷ change w ∷ submit ∷ []

abbrev link : List (Event (Unit {0}) String LibraryItem)
link = entered tt "" "https://example.org"

abbrev vague : TopicValues
vague = record { name = "Proofs"; description = "Proofs" }

abbrev precise : TopicValues
precise = record { name = "Proofs"; description = "Proofs that a machine has checked" }

abbrev new : List (Event (Unit {0}) TopicValues Topic)
new = entered tt vague precise

abbrev topic : List (Event TopicWithStats TopicValues Topic)
topic = entered topic_4 vague precise

abbrev source : {R : Type 0} → List (Event (Unit {0}) AddFeed.Values R)
source =
    entered tt (record { url = ""; fetch_interval_seconds = 3600 })
      (record { url = "https://example.org/rss"; fetch_interval_seconds = 1800 })

abbrev feed : List (Event FeedListItem FeedValues (Unit {0}))
feed =
    entered feed_5 (record { title = ""; fetch_interval_seconds = 3600; paused = false })
      (record { title = "Example"; fetch_interval_seconds = 3600; paused = true })

requests_valid_example :
    All (λ url. is_url url ≡ true) (run (AddLink.handlers is_url) link closed).sent
    × All IsProper (run NewTopic.handlers new closed).sent
    × All IsTopicUpdate (run (EditTopic.handlers (λ n. "Too long")) topic closed).sent
    × All
        (λ (v : AddFeed.Values). is_url v.url ≡ true)
        (run (AddFeed.personal_handlers is_url) source closed).sent
    × All
        (λ (v : AddFeed.Values). is_url v.url ≡ true)
        (run (AddFeed.global_handlers is_url) source closed).sent
    × All IsFeedUpdate (run EditFeed.handlers feed closed).sent
requests_valid_example = requests_valid is_url (λ n. "Too long") link new topic source source feed

-- Each of these dialogs sends what was right.
link_sent : (run (AddLink.handlers is_url) link closed).sent ≡ "https://example.org" ∷ []
unfolding run step AddLink.handlers AddLink.url_errors
link_sent = refl

new_topic_sent : (run NewTopic.handlers new closed).sent ≡ precise ∷ []
unfolding run step NewTopic.handlers NewTopic.errors text_length
new_topic_sent = refl

abbrev edits : List (String × ℕ)
edits = ("Proofs that", 100) ∷ ("Proofs that a machine checked", 499) ∷ []

-- Nothing is trimmed, and nothing is cached.
typing_asks_once_example :
    let s =
      run_panel
        (λ t. t)
        (λ is i. false)
        (passed 600 ∷ [])
        (start (λ t. t) (λ is i. false) "P" "") in
    let t = run_panel (λ t. t) (λ is i. false) (typing "P" edits) s in
    (t.asked ≡ s.asked)
    × ((run_panel (λ t. t) (λ is i. false) (passed 500 ∷ []) t).asked
        ≡ asked_by (λ t. t) (λ is i. false) "P" "" (last_value "" edits) s.asked)
typing_asks_once_example =
    typing_asks_once (λ t. t) (λ is i. false) "P" "" edits 600 500 (omega arith)
      (λ e. cc e, omega arith, (λ e. cc e, omega arith, tt)) (omega arith)

edits_asked :
    (run_panel
      (λ t. t)
      (λ is i. false)
      (passed 500 ∷ [])
      (run_panel
        (λ t. t)
        (λ is i. false)
        (typing "P" edits)
        (start (λ t. t) (λ is i. false) "P" ""))).asked
    ≡ record { name = "P"; description = "Proofs that a machine checked" } ∷ []
unfolding run_panel start Asking.step Debounce.use_debounced_value text_length Debounce.tick
edits_asked = refl
