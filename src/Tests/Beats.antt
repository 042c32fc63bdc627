-- ===== src/Tests/Beats.antt =====
-- Heartbeats, the loop around them and the flags that they leave, on the toy platform.
use banyan_hub_sdk.Base.{
  string_eq, ℕ, zero, suc, String, ◌≡◌, refl, ◌≢◌, ◌↔◌, inl, true, false, none, some, List, [], ◌∷◌,
  arith,
}
use banyan_hub_sdk.Canonical.{marshal_canonical_raw, canonical_json}
use banyan_hub_sdk.Errors.{
  locked, banned, sentinel_eq, sentinel, text, is, is_fatal_error, Result, ok, err,
}
use banyan_hub_sdk.Files.{rename_atomic, write_file_atomic}
use banyan_hub_sdk.Guard.{verification_keys, check, open_guard}
use banyan_hub_sdk.Heartbeat.{
  persist_ban, persist_lock, verify_heartbeat_response, heartbeat_answer, beat_from, send_heartbeat,
}
use banyan_hub_sdk.Heartbeat.Jitter.{
  ℤ, pos, DrawsBelow, Bounded, FitsInt64, heartbeat_jitter_bounds,
}
use banyan_hub_sdk.Heartbeat.Laws.{
  IsGenuine, heartbeat_answer-IsGenuine, Moves, send_heartbeat-Moves,
}
use banyan_hub_sdk.Heartbeat.Loop.{
  Round, Exit, LoopState, on_failure, on_error, after_beat, round, go_on, run, start_heartbeat,
}
use banyan_hub_sdk.Heartbeat.Loop.Expiry.{Expires, start_heartbeat-Expires}
use banyan_hub_sdk.Heartbeat.Loop.Laws.{Outcome, run-Outcome}
use banyan_hub_sdk.Heartbeat.Persistence.{ban_survives_restart, lock_survives_restart}
use banyan_hub_sdk.License.{verify_ed25519_digest}
use banyan_hub_sdk.Platform.{Platform}
use banyan_hub_sdk.State.Laws.{
  Trigger, verified, beat_ok, beat_failed, fire, fire_all, is_usable, Arrow, fire_follows,
  fire_all_unusable,
}
use banyan_hub_sdk.Store.{Store, derive_state_key, sign_payload, encode_state_file, save}
use banyan_hub_sdk.Store.Laws.{Decodes, IsReplaceable}
use banyan_hub_sdk.Tests.Toy.{
  toy_state, toy_platform, toy, toy_identity, toy_settings, leased_store, active_guard,
  kill_response, kill_env, silent_env, round_of,
}
use banyan_hub_sdk.Types.{active, grace, locked_state}

kill_answer : heartbeat_answer toy toy_settings kill_env ≡ ok kill_response
unfolding heartbeat_answer verify_heartbeat_response verify_ed25519_digest canonical_json
    marshal_canonical_raw string_eq verification_keys
kill_answer = refl

heartbeat_answer-IsGenuine_example :
    (nonce : String) × (ok "n" ≡ ok nonce) × IsGenuine toy toy_settings kill_env kill_response nonce
heartbeat_answer-IsGenuine_example =
    heartbeat_answer-IsGenuine toy toy_settings kill_env kill_answer

send_heartbeat-Moves_example :
    Moves toy toy_settings kill_env active_guard
      (send_heartbeat toy toy_settings kill_env active_guard)
send_heartbeat-Moves_example = send_heartbeat-Moves toy toy_settings kill_env active_guard

abbrev fresh_loop : LoopState
fresh_loop = record { guard = active_guard; grace_start = none }

run-Outcome_example :
    Outcome (run toy toy_settings 100 (round_of silent_env ∷ round_of kill_env ∷ []) fresh_loop)
run-Outcome_example =
    run-Outcome toy toy_settings 100 (round_of silent_env ∷ round_of kill_env ∷ []) fresh_loop
      (inl (refl, refl))

abbrev two_failures : List Round
two_failures = round_of silent_env ∷ record (round_of silent_env) { since_time = 30 } ∷ []

-- With a limit of 15: the first failure begins the grace period at 10, the second finds the clock at 30.
gives_up : (start_heartbeat toy toy_settings 15 two_failures active_guard).1 ≡ some Exit.expired
unfolding start_heartbeat run round after_beat on_error on_failure go_on send_heartbeat beat_from
    heartbeat_answer is is_fatal_error sentinel_eq
gives_up = refl

start_heartbeat-Expires_example :
    ((start_heartbeat toy toy_settings 15 two_failures active_guard).1 ≡ some Exit.expired)
    ↔ Expires toy toy_settings 15 none two_failures
        (record { guard = active_guard; grace_start = none })
start_heartbeat-Expires_example =
    start_heartbeat-Expires toy toy_settings 15 two_failures active_guard

expired_by_failures :
    Expires toy toy_settings 15 none two_failures
      (record { guard = active_guard; grace_start = none })
expired_by_failures =
    (start_heartbeat-Expires toy toy_settings 15 two_failures active_guard).0 gives_up

-- A platform that reads back the state of a ban, and one that reads back that of a lock.
abbrev banned_platform : Platform
banned_platform = toy_platform (record toy_state { ban_flag = true })

abbrev locked_platform : Platform
locked_platform = toy_platform (record toy_state { lock_flag = true })

active_IsReplaceable : IsReplaceable active_guard.store
active_IsReplaceable = record { not_windows = refl; no_temp = refl }

ban-Decodes : Decodes banned_platform (record toy_state { ban_flag = true })
ban-Decodes = record {
  state-decodes = λ b h. refl;
  envelope-decodes = λ key payload b p h. cc;
  base64-decodes = λ key payload. refl;
}

lock-Decodes : Decodes locked_platform (record toy_state { lock_flag = true })
lock-Decodes = record {
  state-decodes = λ b h. refl;
  envelope-decodes = λ key payload b p h. cc;
  base64-decodes = λ key payload. refl;
}

abbrev after_ban : Store
after_ban = (persist_ban banned_platform toy_identity 7 active_guard).store

abbrev after_lock : Store
after_lock = (persist_lock locked_platform toy_identity 7 active_guard).store

ban_saves :
    (save banned_platform toy_identity 7 (record toy_state { ban_flag = true }) leased_store).1
    ≡ ok tt
unfolding save encode_state_file sign_payload derive_state_key write_file_atomic rename_atomic
ban_saves = refl

lock_saves :
    (save locked_platform toy_identity 7 (record toy_state { lock_flag = true }) leased_store).1
    ≡ ok tt
unfolding save encode_state_file sign_payload derive_state_key write_file_atomic rename_atomic
lock_saves = refl

ban_survives_restart_example :
    check (open_guard banned_platform toy_identity 8 8 none after_ban) ≡ err (sentinel banned)
ban_survives_restart_example =
    ban_survives_restart banned_platform toy_identity 7 8 8 active_guard after_ban
      active_IsReplaceable ban-Decodes ban_saves refl

lock_survives_restart_example :
    check (open_guard locked_platform toy_identity 8 8 none after_lock) ≡ err (sentinel locked)
lock_survives_restart_example =
    lock_survives_restart locked_platform toy_identity 7 8 8 active_guard after_lock
      active_IsReplaceable lock-Decodes lock_saves refl

fire_follows_example : (fire beat_failed active ≡ grace) ↔ Arrow beat_failed active grace
fire_follows_example = fire_follows beat_failed active grace

beat_ok_differs : beat_ok ≢ verified
beat_ok_differs h = cc

expired_differs : Trigger.expired ≢ verified
expired_differs h = cc

fire_all_unusable_example :
    is_usable (fire_all (beat_ok ∷ Trigger.expired ∷ []) locked_state) ≡ false
fire_all_unusable_example =
    fire_all_unusable (beat_ok ∷ Trigger.expired ∷ []) locked_state
      (beat_ok_differs, (expired_differs, tt)) refl

draws_zero : ℕ → Result ℕ
draws_zero zero = err (text "empty range")
draws_zero (suc n) = ok 0

draws_zero-DrawsBelow : DrawsBelow draws_zero
unfolding draws_zero
draws_zero-DrawsBelow zero r h = cc
draws_zero-DrawsBelow (suc n) r h = ground arith

abbrev hour : ℤ
hour = pos 3_600_000_000_000

hour-FitsInt64 : FitsInt64 hour
unfolding FitsInt64
hour-FitsInt64 = omega arith

heartbeat_jitter_bounds_example : Bounded draws_zero hour
heartbeat_jitter_bounds_example =
    heartbeat_jitter_bounds draws_zero hour draws_zero-DrawsBelow hour-FitsInt64
