-- ===== src/Tests/Server.antt =====
-- A server whose PAM accepts one password for "ada".
use Prim.Native.String.{◌++◌ as append}
use pilothouse.Base.{
  ◌≡◌, ◌≢◌, ◌<◌, ◌↔◌, refl, String, true, false, ◌&&◌, Option, none, some, [], string_eq, ◌==◌,
  if◌then◌else◌, sort, insert_sorted, precedes, lookup, insert, retain, arith,
}
use pilothouse.Auth.{resolve, parse_uid, parse_digits, group_names}
use pilothouse.Broker.Text.{invalid_text, contains_break}
use pilothouse.Broker.Params.{validate_parameters}
use pilothouse.Broker.Attempts.{delay}
use pilothouse.Broker.Sessions.{
  SessionResponse, create, new_session_store, new_session, session_response, get,
}
use pilothouse.Broker.Actions.{Fault, execute, admit}
use pilothouse.Broker.Server.{
  Server, failed, login_reply, LoginRequest, LoginAnswers, ActionRequest, execute_action, authorize,
  current_session,
}
use pilothouse.Broker.Server.Bearer.{bearer_token, cut_prefix}
use pilothouse.Broker.Server.Login.{LoggedIn, login, login_key, login-LoggedIn}
use pilothouse.Broker.Server.Acting.{Authority, execute_action-Authority}
use pilothouse.Broker.Server.Throttle.{login-refused_twice}
use pilothouse.Broker.Server.Tokens.{login-current_session_iff}
use pilothouse.Tests.Actions.{registry, all_well, named, something}
use pilothouse.Tests.Resolver.{resolver, ada}

abbrev digest : String → String
digest token = token

abbrev pam : String → String → Option Fault
pam name password =
    if name == "ada" && password == "secret"
    then none
    else some (record { is_canceled = false; is_deadline = false; message = "refused" })

abbrev as_is : String → String
as_is s = s

abbrev server : Server String
server = record {
  actions = registry;
  attempts = [];
  queries = [];
  resolver = resolver;
  sessions = new_session_store 10 25;
  stream_actions = record { actions = []; has_audit = true; has_problems = true };
  stream_queries = [];
}

abbrev answers : LoginAnswers
answers = record {
  at_delay = 100;
  at_failure = 101;
  at_session = 102;
  slot_free = true;
  rand1 = some "token";
  rand2 = some "csrf";
}

abbrev right : LoginRequest
right = record { password = "secret"; remote = "10.0.0.7"; username = "ada" }

abbrev wrong : LoginRequest
wrong = record right { password = "guess" }

abbrev session : SessionResponse
session = record { csrf = "csrf"; expires_at = 112; identity = ada }

logged_in :
    (login String digest pam as_is as_is [] server answers (some right)).1
    ≡ login_reply "token" session
unfolding login create new_session_store new_session session_response resolve parse_uid parse_digits
    group_names sort insert_sorted precedes insert retain delay lookup
logged_in = refl

login-LoggedIn_example :
    LoggedIn String digest pam as_is as_is [] server
      (login String digest pam as_is as_is [] server answers (some right)).0
      answers
      right
      "token"
      session
login-LoggedIn_example =
    login-LoggedIn String digest pam as_is as_is [] server answers right "token" session logged_in

refused :
    (login String digest pam as_is as_is [] server answers (some wrong)).1
    ≡ failed 401 "invalid username or password"
unfolding login delay lookup
refused = refl

login-refused_twice_example :
    (login String digest pam as_is as_is
      (login String digest pam as_is as_is [] server answers (some wrong)).0.attempts
      server
      (record answers { at_delay = 500 })
      (some right)).1
    ≢ login_reply "token" session
unfolding login_key
login-refused_twice_example =
    login-refused_twice String digest pam as_is as_is []
      (login String digest pam as_is as_is [] server answers (some wrong)).0.attempts server server
      answers (record answers { at_delay = 500 }) wrong right "invalid username or password" "token"
      session refused refl (omega arith) refl

token_there : ◌≢◌ {A = String} "token" ""
token_there e = ground (arith, string_eq.beq_iff "token" "")

login-current_session_iff_example :
    ((current_session String digest
        (login String digest pam as_is as_is [] server answers (some right)).0
        (some (append "Bearer " "token"))
        111).1
      ≢ failed 401 "authentication required")
    ↔ (111 < 112)
login-current_session_iff_example =
    login-current_session_iff String digest pam as_is as_is [] server answers right "token" session
      111 token_there logged_in

abbrev served : Server String
served = (login String digest pam as_is as_is [] server answers (some right)).0

abbrev restarting : ActionRequest
restarting = record { confirmation = "sshd.service"; parameters = named }

execute_action-Authority_example :
    Authority String digest served (some "Bearer token") 110 "service.restart" (some restarting)
unfolding execute_action authorize bearer_token cut_prefix get login create new_session_store
    new_session session_response resolve parse_uid parse_digits group_names sort insert_sorted
    precedes insert retain delay lookup execute admit validate_parameters invalid_text
    contains_break
execute_action-Authority_example =
    execute_action-Authority String digest served all_well (some "Bearer token") 110
      "service.restart" (some restarting) (λ e. something _ _ e)
