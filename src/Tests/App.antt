-- ===== src/Tests/App.antt =====
-- The controller over the toy primitives, from its start.
use harbour_leyni.Prelude.{◌≡◌, ◌≤◌, refl, arith, true, false, none, some, [], codes}
use harbour_leyni.Crypto.Kdf.Params.{KdfType}
use harbour_leyni.Vault.Json.{pos}
use harbour_leyni.Vault.Session.Invariant.{IsSealed}
use harbour_leyni.Vault.Stores.{committed, exists}
use harbour_leyni.Api.Client.{
  canceled, Reply, transport_error, transport_failure, finished_prelogin,
}
use harbour_leyni.Ui.State.{Settings, App, World, login, prelogin_call}
use harbour_leyni.Ui.Account.{new_app, first_page, handle_app_state_changed, sign_out}
use harbour_leyni.Ui.Login.{start_login, prelogin_done}
use harbour_leyni.Ui.Controller.{Event, take_call, resume, answer_call, react, step}
use harbour_leyni.Ui.Safety.{IsSound}
use harbour_leyni.Ui.Reachable.{
  Reachable, start, next, HasOutstanding, Run, done, then_run, replies, busy-HasOutstanding,
  runs_end,
}
use harbour_leyni.Ui.Waiting.{rank}
use harbour_leyni.Ui.Guarantees.{Reachable-IsSound}
use harbour_leyni.Ui.Locking.{IsHidden, minimise-IsHidden, KeepsPending, sign_out_lem}
use harbour_leyni.Tests.Toy.{toy}
use harbour_leyni.Tests.Vault.{qt}

abbrev settings : Settings
settings = record {
  server_url = [];
  email = codes "a@b";
  device_id = codes "d";
  refresh_token = [];
  kdf = record {
    type = KdfType.pbkdf2_sha256;
    iterations = 600000;
    memory_mib = 0;
    parallelism = 0;
  };
  auto_lock_minutes = pos 5;
  clipboard_seconds = pos 30;
  lock_on_minimize = true;
  pin_failures = 2;
}

abbrev world : World
world = record {
  sync_writing = committed;
  pin_writing = committed;
  sync_removed = true;
  pin_removed = true;
  random_salt = none;
  random_iv = none;
  uuid = codes "{u}";
  unix_time = 0;
}

abbrev started : App
started = new_app qt settings none (some (codes "pin")) []

started-Reachable : Reachable toy qt started
started-Reachable = start settings none (some (codes "pin")) [] (omega arith)

abbrev signing_in : App
signing_in = step toy qt world (Event.login_started (codes "pw")) started

signing_in-Reachable : Reachable toy qt signing_in
signing_in-Reachable = next world (Event.login_started (codes "pw")) started started-Reachable

abbrev lost : Reply
lost = record { failed = some canceled; http_status = 0; body = [] }

abbrev left_alone : App
left_alone = step toy qt world (Event.replied 0 lost) signing_in

Reachable-IsSound_example : IsSound signing_in
Reachable-IsSound_example = Reachable-IsSound toy qt signing_in signing_in-Reachable

signing_in_alive : signing_in.crashed ≡ false
unfolding step react start_login new_app first_page exists
signing_in_alive = refl

signing_in_busy : signing_in.busy ≡ true
unfolding step react start_login new_app first_page exists
signing_in_busy = refl

busy-HasOutstanding_example : HasOutstanding signing_in
busy-HasOutstanding_example =
    busy-HasOutstanding toy qt signing_in signing_in-Reachable signing_in_alive signing_in_busy

started_locks : started.settings.lock_on_minimize ≡ true
unfolding new_app first_page exists
started_locks = refl

minimise-IsHidden_example : IsHidden (handle_app_state_changed qt false started)
minimise-IsHidden_example = minimise-IsHidden toy qt started started-Reachable started_locks

sign_out_lem_example :
    IsSealed (sign_out qt world signing_in).vault
    × ((sign_out qt world signing_in).sync_file ≡ none)
    × ((sign_out qt world signing_in).pin_file ≡ none)
    × ((sign_out qt world signing_in).access_token ≡ [])
    × ((sign_out qt world signing_in).refresh_token ≡ [])
    × ((sign_out qt world signing_in).settings.refresh_token ≡ [])
    × ((sign_out qt world signing_in).page ≡ login)
    × KeepsPending signing_in (sign_out qt world signing_in)
sign_out_lem_example = sign_out_lem qt world signing_in refl refl

left_alone_alive : left_alone.crashed ≡ false
unfolding step react answer_call take_call resume prelogin_done finished_prelogin transport_failure
    transport_error start_login new_app first_page exists
left_alone_alive = refl

-- The page stays, with the error told.
left_alone_idle : left_alone.busy ≡ false
unfolding step react answer_call take_call resume prelogin_done finished_prelogin transport_failure
    transport_error start_login new_app first_page exists
left_alone_idle = refl

one_call : take_call 0 signing_in.calls ≡ some (prelogin_call (codes "pw"), [])
unfolding step react take_call start_login new_app first_page exists
one_call = refl

one_reply : Run toy qt 1 signing_in left_alone
one_reply =
    then_run 0 signing_in left_alone left_alone
      (replies world 0 lost signing_in (prelogin_call (codes "pw")) [] one_call) left_alone_alive
      (done left_alone)

runs_end_example : (1 ≤ rank signing_in) × (¬ HasOutstanding left_alone → left_alone.busy ≡ false)
runs_end_example =
    runs_end toy qt 1 signing_in left_alone signing_in-Reachable signing_in_alive left_alone_alive
      one_reply
