-- ===== src/Watcher/Replies.antt =====
-- Concrete replies of the router (llm/watcher/model_server.py) and requests to the control page
-- (llm/watcher/web.py), and each result at one of them.
use podhaus.Watcher.Exec.{ok}
use podhaus.Watcher.Fixtures.{ready, quiet_away, idle_gpu, start}
use podhaus.Watcher.Data.{loaded, unloaded}
use podhaus.Watcher.Web.{
  Headers, cross_site, Button, button_at, do_post, press, Response, status_code, is_alpha,
  is_scheme, is_delimiter,
}
use podhaus.Base.Json.{Value, Items, dict, cons, field, nil, text, flag, num, end, array}
use podhaus.Watcher.Router.Commands.{server_status, as_items, or_missing, server_unload_reply}
use podhaus.Watcher.Router.{fails, item, request, gives, last_named, parse_status, answers}
use podhaus.Base.{
  ◌≡◌, ℕ, List, String, ◌∷◌, some, [], false, none, ◌↔◌, refl, arith, ◌⊎◌, true, pos, if◌then◌else◌,
  is_some,
}
use podhaus.Watcher.Router.Laws.{NotRunning, unload_answers}
use podhaus.Watcher.Web.Origin.{cross_site_iff, url_of, do_post-guards}

abbrev success : Value
success = dict (field "success" (flag true) end)

abbrev gone : Value
gone = dict (
    field "error"
      (dict (field "code" (num (pos 400)) (field "message" (text "model is not running") end))) end)

abbrev entry : String → Value
entry model =
    dict (field "id" (text model) (field "status" (dict (field "value" (text "loaded") end)) end))

abbrev listing : Items
listing = cons (entry "other") (cons (entry "qwen") nil)

-- The readings of one listing, and of a refused unload.
status_run :
    server_status "qwen" (answers (dict (field "data" (array listing) end)))
    ≡ gives (record { state = loaded; exit_code = none })
unfolding server_status request item as_items last_named or_missing parse_status
status_run = refl

unload_answers_example : NotRunning (fails 400 (some gone))
unfolding server_unload_reply
unload_answers_example = unload_answers (fails 400 (some gone)) false refl

-- `https` without its first letter, and the texts of a host and a path.
abbrev scheme_tail : List ℕ
scheme_tail = b't' ∷ b't' ∷ b'p' ∷ b's' ∷ []

abbrev llm_host : List ℕ
llm_host = b'l' ∷ b'l' ∷ b'm' ∷ []

abbrev evil_host : List ℕ
evil_host = b'e' ∷ b'v' ∷ b'i' ∷ b'l' ∷ []

abbrev from_evil : Headers
from_evil = record {
  origin = some (url_of b'h' scheme_tail evil_host []);
  host = some llm_host;
  fetch_site = none;
}

cross_site_iff_example : (cross_site from_evil ≡ false) ↔ (evil_host ≡ llm_host)
unfolding is_alpha is_scheme is_delimiter
cross_site_iff_example =
    cross_site_iff from_evil b'h' scheme_tail evil_host [] llm_host refl
      (refl, (refl, (refl, (refl, tt)))) (refl, (refl, (refl, (refl, tt)))) tt refl refl
      (λ e. ground arith)

do_post-guards_example :
    ((b : Button) × (button_at "/control/yield" ≡ some b)
      × (cross_site from_evil ≡ false)
      × ((do_post "/control/yield" from_evil 5000 (ready idle_gpu unloaded) (start quiet_away)).1
          ≡ (press b 5000 (ready idle_gpu unloaded) (start quiet_away)).1))
    ⊎ (((do_post "/control/yield" from_evil 5000 (ready idle_gpu unloaded) (start quiet_away)).1
          ≡ start quiet_away)
        × ((response : Response) × ((do_post "/control/yield" from_evil 5000
                (ready idle_gpu unloaded)
                (start quiet_away)).0
              ≡ ok response)
            × (status_code response ≡ (if is_some (button_at "/control/yield") then 403 else 404))))
do_post-guards_example =
    do_post-guards "/control/yield" from_evil 5000 (ready idle_gpu unloaded) (start quiet_away)
