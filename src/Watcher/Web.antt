-- ===== src/Watcher/Web.antt =====
-- llm/watcher/web.py: the control page, the metrics, the health check and the two buttons. A header
-- that a test takes apart is a list of code points.
use podhaus.Base.Codes.{text_eq}
use podhaus.Watcher.Tick.{yield_now, resume_now}
use podhaus.Base.Text.{str_eq}
use podhaus.Watcher.Data.{Reason, GuestMemory, Watcher}
use podhaus.Watcher.Exec.{◌>>=◌, Exec, pure, ◌>>◌}
use podhaus.Watcher.Lifecycle.{snapshot, Snapshot, health}
use podhaus.Base.{
  String, List, ℕ, Bool, Option, ◌∷◌, some, ◌||◌, ◌==◌, false, leb, map, [], if◌then◌else◌, none,
  true, ◌&&◌, ⊤, not,
}
pub mod Origin

-- `self.headers[...]`
pub record Headers : Type 0 where
  pub origin : Option (List ℕ)
  pub host : Option (List ℕ)
  pub fetch_site : Option String

-- `urlsplit(origin).netloc`. The standard library also refuses a host with one bracket of a pair.
unfoldable pub is_alpha : ℕ → Bool
is_alpha c = (leb b'a' c && leb c b'z') || (leb b'A' c && leb c b'Z')

unfoldable pub is_scheme : ℕ → Bool
unfolding is_alpha
is_scheme c = is_alpha c || ((leb b'0' c && leb c b'9') || (c == b'+' || (c == b'-' || c == b'.')))

unfoldable pub is_delimiter : ℕ → Bool
is_delimiter c = c == b'/' || (c == b'?' || c == b'#')

-- What follows the scheme, or the whole where there is none.
after_scheme : List ℕ → List ℕ → List ℕ
unfolding is_scheme
after_scheme whole [] = whole
after_scheme whole (c ∷ cs) =
    if c == b':' then cs else if is_scheme c then after_scheme whole cs else whole

drop_scheme : List ℕ → List ℕ
unfolding after_scheme
drop_scheme [] = []
drop_scheme (c ∷ cs) = if is_alpha c then after_scheme (c ∷ cs) cs else c ∷ cs

until_delimiter : List ℕ → List ℕ
unfolding is_delimiter
until_delimiter [] = []
until_delimiter (c ∷ cs) = if is_delimiter c then [] else c ∷ until_delimiter cs

after_slashes : List ℕ → List ℕ
unfolding until_delimiter
after_slashes (a ∷ b ∷ cs) = if a == b'/' && b == b'/' then until_delimiter cs else []
after_slashes _ = []

unfoldable pub netloc : List ℕ → List ℕ
unfolding drop_scheme after_slashes
netloc url = after_slashes (drop_scheme url)

unfoldable pub is_text : List ℕ → Option (List ℕ) → Bool
unfolding text_eq
is_text t none = false
is_text t (some u) = text_eq t u

-- `_cross_site`
unfoldable pub cross_site : Headers → Bool
unfolding netloc is_text
cross_site h =
    (elim h.fetch_site [ none ↦ false | some s ↦ str_eq s "cross-site" ])
    || (elim h.origin [ none ↦ false | some o ↦ not (is_text (netloc o) h.host) ])

-- How a handler answers.
pub data Response : Type 0 where
  not_found forbidden see_control : Response
  control_page : Snapshot → Response
  metrics : Snapshot → Response
  healthz : Option Reason → Response

-- `do_POST`: what it presses is the call that the path names; nothing is sent if the call raises
pub data Button : Type 0 where
  yield_button resume_button : Button

unfoldable pub button_at : String → Option Button
button_at path =
    if str_eq path "/control/yield"
    then some yield_button
    else if str_eq path "/control/resume"
    then some resume_button
    else none

unfoldable pub press : Button → ℕ → Exec ⊤
press yield_button now = yield_now now
press resume_button now = resume_now now

unfoldable pub do_post : String → Headers → ℕ → Exec Response
unfolding ◌>>=◌
do_post path headers now = elim (button_at path) [
  | none ↦ pure not_found
  | some b ↦ if cross_site headers then pure forbidden else (do press b now; pure see_control)
]

-- `do_GET`, on what the watcher shows at `now`
unfoldable pub do_get : String → ℕ → GuestMemory → Watcher → Response
unfolding snapshot health
do_get path now memory w =
    if str_eq path "/control"
    then control_page (snapshot now memory w)
    else if str_eq path "/metrics"
    then metrics (snapshot now memory w)
    else if str_eq path "/healthz"
    then healthz (health now w)
    else not_found

unfoldable pub status_code : Response → ℕ
status_code not_found = 404
status_code forbidden = 403
status_code see_control = 303
status_code (control_page _) = 200
status_code (metrics _) = 200
status_code (healthz none) = 200
status_code (healthz (some _)) = 503

-- `STATE_NAMES`, and the lines of `metrics_text` for the state
abbrev pub state_names : List String
state_names = "serving" ∷ "yielding" ∷ "yielded" ∷ "resuming" ∷ []

unfoldable pub state_gauges : Snapshot → List (String × ℕ)
state_gauges s = map (λ n. (n, if str_eq n s.state then 1 else 0)) state_names
