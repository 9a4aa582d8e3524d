-- ===== src/App/Methods.antt =====
-- What a call of `Mount` does to a machine (src/state/initial_state.hpp).
use virtual_media.Base.{
  ◌+◌, ◌≡◌, refl, inl, inr, Bool, true, false, Option, none, some, Text, if◌then◌else◌, Exception,
  Result, List, ok, err, leb, sdbus, Bool-cases, Result-cases, length, errc_ebusy, errc_einval,
  errc_eperm,
}
use virtual_media.Credentials.{Credentials, payload, make_credentials, secret_limit}
use virtual_media.Credentials.Payload.{NullFree, read_secret-payload}
use virtual_media.Machine.{
  Target, State, initial, ready, activating, active, deactivating, mount, System, Machine, Outcome,
  done, threw, final,
}
use virtual_media.Machine.Handlers.{
  handle_initial, handle_activating, handle_active, handle_deactivating,
}
use virtual_media.Machine.Run.{emits, step, emit_event, handle_event}
use virtual_media.Machine.Balance.{live_mounts}
use virtual_media.App.{
  is_ready_state, take_info, Turn, takes, turn, turns, Extra, secret, waits, receive_credentials,
  legacy_mount,
}
use virtual_media.App.Turns.{
  IsKept, AreFreshWaits, RestsReleased, IsKept-RestsReleased, turn-IsKept, take_info-IsKept,
  waits-IsKept,
}

-- The answer of a machine that is not ready: the objects are there once it is no longer initial.
abbrev pub answer_busy : State → Option Exception
answer_busy initial = none
answer_busy (ready e) = none
answer_busy (activating p g) = some (sdbus errc_ebusy)
answer_busy (active p g) = some (sdbus errc_eperm)
answer_busy (deactivating p g u b) = some (sdbus errc_ebusy)

abbrev pub refuses : Option Exception → Machine → Outcome Bool
refuses none s = done true s
refuses (some e) s = threw e s

mount_busy :
    (sys : System) (t : Option Target) (state : State) (s : Machine)
    → s.state ≡ state
    → is_ready_state state ≡ false
    → emit_event sys (mount t) s ≡ refuses (answer_busy state) s
unfolding emit_event handle_event handle_initial handle_activating handle_active handle_deactivating
    is_ready_state
mount_busy sys t initial s e r = rw (e, emit_event) refl
mount_busy sys t (ready x) s e r = absurd (cc r)
mount_busy sys t (activating p g) s e r = rw (e, emit_event) refl
mount_busy sys t (active p g) s e r = rw (e, emit_event) refl
mount_busy sys t (deactivating p g u b) s e r = rw (e, emit_event) refl

-- The outcome of a mount for a machine that is not ready when it goes on.
abbrev pub AnswersBusy : Result (Option Credentials) → Outcome Bool → Machine → Type 0
AnswersBusy r o s =
    if is_ready_state s.state
    then Unit
    else (o ≡ elim r [ err e ↦ threw e s | ok c ↦ refuses (answer_busy s.state) s ])

emit_mount-IsKept :
    (sys : System) (t : Target) (s : Machine)
    → live_mounts (some t) ≡ 0
    → IsKept s
    → IsKept (final (emit_event sys (mount (some t)) s))
unfolding step turn
emit_mount-IsKept sys t s f h = turn-IsKept (takes (emits sys (mount (some t)))) s (f, tt) h

mount-IsKept :
    (sys : System) (url : Text) (is_rw : Bool) (extra : Extra) (info : Text) (s : Machine)
    → IsKept (waits extra (take_info info s))
    → IsKept (final (legacy_mount sys url is_rw extra info s))
unfolding legacy_mount
mount-IsKept sys url is_rw extra info s w = elim (Result-cases (receive_credentials extra)) [
  | inl (e, q) ↦ rw (q, legacy_mount) w
  | inr (c, q) ↦ rw (q, legacy_mount) (emit_mount-IsKept sys _ _ refl w)
]

mount-AnswersBusy :
    (sys : System) (url : Text) (is_rw : Bool) (extra : Extra) (info : Text) (s : Machine)
    → AnswersBusy
        (receive_credentials extra)
        (legacy_mount sys url is_rw extra info s)
        (waits extra (take_info info s))
unfolding legacy_mount
mount-AnswersBusy sys url is_rw extra info s =
    elim (Bool-cases (is_ready_state (waits extra (take_info info s)).state)) [
      | inl e ↦ rw e tt
      | inr e ↦ rw e (elim (Result-cases (receive_credentials extra)) [
        | inl (x, q) ↦ rw (q, legacy_mount) refl
        | inr (c, q) ↦ rw (q, legacy_mount) (mount_busy sys _ _ _ refl e)
      ])
    ]

-- A call of Mount on a legacy machine that is registered and in balance leaves it so, with
-- everything given back where it is ready, whatever else happens to the machine while the coroutine
-- waits for the pipe, calls of other clients too, and whatever it reads; the mounts in between
-- carry targets that hold no mount yet. Where the machine is not ready when the coroutine goes on,
-- though it may have been before, it stays as it is then: a failed read or a malformed pipe is
-- answered first, then EBUSY while it activates or deactivates, and EPERM while it is active.
pub legacy_mount-IsKept :
    (sys : System) (url : Text) (is_rw : Bool) (extra : Extra) (info : Text) (s : Machine)
    → AreFreshWaits extra
    → IsKept s
    → IsKept (final (legacy_mount sys url is_rw extra info s))
      × RestsReleased (final (legacy_mount sys url is_rw extra info s))
      × AnswersBusy
          (receive_credentials extra)
          (legacy_mount sys url is_rw extra info s)
          (waits extra (take_info info s))
legacy_mount-IsKept sys url is_rw extra info s f h =
    let w : IsKept (waits extra (take_info info s)) =
      waits-IsKept extra (take_info info s) f (take_info-IsKept info s h) in
    let k = mount-IsKept sys url is_rw extra info s w in
    (
      k,
      IsKept-RestsReleased (final (legacy_mount sys url is_rw extra info s)) k,
      mount-AnswersBusy sys url is_rw extra info s,
    )

receive_credentials-fits :
    (ts : List Turn) (u p : Text)
    → NullFree u
    → NullFree p
    → leb (length u + length p + 2) secret_limit ≡ true
    → receive_credentials (secret ts (ok (payload u p))) ≡ ok (some (make_credentials u p))
unfolding receive_credentials
receive_credentials-fits ts u p hu hp e =
    rw (read_secret-payload u p hu hp, receive_credentials) (rw e refl)

receive_credentials-long :
    (ts : List Turn) (u p : Text)
    → NullFree u
    → NullFree p
    → leb (length u + length p + 2) secret_limit ≡ false
    → receive_credentials (secret ts (ok (payload u p))) ≡ err (sdbus errc_einval)
unfolding receive_credentials
receive_credentials-long ts u p hu hp e =
    rw (read_secret-payload u p hu hp, receive_credentials) (rw e refl)

-- A read that gives the credentials as the client writes them, without null bytes, at most as many
-- as fit the buffer: the machine, as it is when the read is done, is given a mount of a target with
-- these credentials where they fit the buffer; where they do not, it is left so, and the call is
-- refused with EINVAL. The information is taken before the wait, and only where it is ready then.
pub legacy_mount-payload :
    (sys : System) (url : Text) (is_rw : Bool) (ts : List Turn) (u p info : Text) (s : Machine)
    → NullFree u
    → NullFree p
    → let s' : Machine =
        turns ts (if is_ready_state s.state then record s { additional_info = info } else s) in
      legacy_mount sys url is_rw (secret ts (ok (payload u p))) info s ≡ (
        if leb (length u + length p + 2) secret_limit
        then emit_event sys
            (mount (
              some (record {
                img_url = url;
                is_rw = is_rw;
                mount_point = none;
                credentials = some (make_credentials u p);
                mount_point_nfs = none;
              })))
            s'
        else threw (sdbus errc_einval) s')
unfolding legacy_mount waits take_info
legacy_mount-payload sys url is_rw ts u p info s hu hp =
    elim (Bool-cases (leb (length u + length p + 2) secret_limit)) [
      | inl e ↦ rw (receive_credentials-fits ts u p hu hp e, legacy_mount) (rw e refl)
      | inr e ↦ rw (receive_credentials-long ts u p hu hp e, legacy_mount) (rw e refl)
    ]
