-- ===== src/Core/Process.antt =====
-- `process`: the checks before a request, the retry cache, and `dispatch` (device/core/src/core.rs),
-- with `Reply::new` (device/core/src/wire.rs). `valid` is the schema's verdict on the request, and
-- `same` the equality of JSON values; both are third-party code.
use donkeywork_desktop.Base.{
  ℕ, ◌+◌, Bool, true, false, not, ◌&&◌, ◌||◌, Option, none, some, List, [], ◌∷◌, ok, err, leb, ◌==◌,
  if◌then◌else◌, find, keep_if, length,
}
use donkeywork_desktop.Core.Types.{
  Code, Fallible, Core, Backend, Connection, Target, Frame, Body, describe, session_open,
  session_close, control_acquire, control_renew, control_release, screenshot_request, input_event,
  input_reset, display_resize, terminal_open, terminal_close, terminal_other, Request, Payload,
  opened, ack, error, Reply, Cached, retention, invalid_argument, unauthorized, resource_exhausted,
  unsupported_capability,
}
use donkeywork_desktop.Core.Monad.{Act}
use donkeywork_desktop.Core.Lifecycle.{maintain}
use donkeywork_desktop.Core.Admission.{authorized, bound}
use donkeywork_desktop.Core.Requests.{
  Env, describe_worker, open_session, close_bound, acquire_control, renew_control, release_control,
  reset_input, send_input,
}
use donkeywork_desktop.Core.Screen.{Shutter, screenshot, resize_display}

abbrev pub target_of : Body → Option Target
target_of describe = none
target_of session_open = none
target_of (session_close t) = some t
target_of (control_acquire t) = some t
target_of (control_renew t l) = some t
target_of (control_release t l) = some t
target_of (screenshot_request t d c) = some t
target_of (input_event t l s a i) = some t
target_of (input_reset t l s) = some t
target_of (display_resize t l d r m) = some t
target_of (terminal_open t) = some t
target_of (terminal_close t) = some t
target_of (terminal_other t) = some t

abbrev pub is_safe : Body → Bool
is_safe session_open = true
is_safe (session_close t) = true
is_safe (terminal_open t) = true
is_safe (terminal_close t) = true
is_safe (display_resize t l d r m) = true
is_safe _ = false

abbrev is_closing : Body → Bool
is_closing (session_close t) = true
is_closing _ = false

abbrev pub session_key : Option Target → Option ℕ
session_key none = none
session_key (some t) = some t.session_id

abbrev pub same_key : Option ℕ → Option ℕ → Bool
same_key none none = true
same_key none (some b) = false
same_key (some a) none = false
same_key (some a) (some b) = a == b

-- `Reply::error`: an error names no session.
unfoldable pub error_reply : ℕ → Request → Code → Reply
error_reply id request code = record {
  message_id = id;
  request_message_id = request.message_id;
  target = none;
  payload = error code;
  binary = [];
}

-- The part of a reply that `dispatch` decides: session, payload, bytes.
abbrev Answer : Type 0
Answer = Option Target × Payload × List ℕ

abbrev plain : {B : Type 0} → Option Target → Core B × Fallible Payload → Core B × Fallible Answer
plain t (c, ok p) = (c, ok (t, p, []))
plain t (c, err e) = (c, err e)

abbrev with_target : {B : Type 0} → Core B × Fallible Target → Core B × Fallible Answer
with_target (c, ok t) = (c, ok (some t, opened, []))
with_target (c, err e) = (c, err e)

abbrev with_bytes :
    {B : Type 0} → Target → Core B × Fallible (Payload × List ℕ) → Core B × Fallible Answer
with_bytes t (c, ok (p, bytes)) = (c, ok (some t, p, bytes))
with_bytes t (c, err e) = (c, err e)

abbrev reply_of : ℕ → Request → Fallible Answer → Reply
reply_of id request (ok (t, p, bytes)) = record {
  message_id = id;
  request_message_id = request.message_id;
  target = t;
  payload = p;
  binary = bytes;
}
reply_of id request (err e) = error_reply id request e

abbrev pub has_key : ℕ → Request → Cached → Bool
has_key uid request e =
    e.uid == uid
    && same_key e.session (session_key (target_of request.body))
    && e.message == request.message_id

abbrev pub from_cache : (Request → Request → Bool) → Env → Request → Cached → Reply
from_cache same env request e =
    if same e.request request
    then record e.reply { message_id = env.new_message }
    else error_reply env.new_message request invalid_argument

module _ {B : Type 0} ⦃K : Backend B⦄ (valid : Request → Bool) (same : Request → Request → Bool)
    (png : Frame → Option (List (List ℕ))) where
  unfoldable pub dispatch : Env → Shutter → Connection → Body → Act B Answer
  dispatch env t connection describe c = plain none (describe_worker connection.uid c)
  dispatch env t connection session_open c = with_target (open_session env connection c)
  dispatch env t connection (session_close target) c =
      (close_bound env target.session_id c, ok (some target, ack, []))
  dispatch env t connection (control_acquire target) c =
      plain (some target) (acquire_control env connection target c)
  dispatch env t connection (control_renew target l) c =
      plain (some target) (renew_control env connection target l c)
  dispatch env t connection (control_release target l) c =
      plain (some target) (release_control env connection target l c)
  dispatch env t connection (screenshot_request target display cursor) c =
      with_bytes target (screenshot png t connection target display cursor c)
  dispatch env t connection (input_event target l sequence aim input) c =
      plain (some target) (send_input env connection target l sequence aim input c)
  dispatch env t connection (input_reset target l sequence) c =
      plain (some target) (reset_input env connection target l sequence c)
  dispatch env t connection (display_resize target l display revision mode) c =
      plain (some target) (resize_display env connection target l display revision mode c)
  dispatch env t connection (terminal_open target) c = (c, err unsupported_capability)
  dispatch env t connection (terminal_close target) c = (c, err unsupported_capability)
  dispatch env t connection (terminal_other target) c = (c, err unsupported_capability)

  abbrev remember : Env → Connection → Request → Reply → Core B → Core B
  remember env connection request reply c = record c { cache = entry ∷ c.cache }
    where
      entry : Cached
      entry = record {
        uid = connection.uid;
        session = session_key (target_of request.body);
        message = request.message_id;
        request = request;
        reply = reply;
        expires = env.done_at + retention;
      }

  -- The dispatch, whose reply is remembered if the request is safe to retry.
  unfoldable pub perform : Env → Shutter → Connection → Request → Core B → Core B × Reply
  perform env t connection request c =
      let (c', r) = dispatch env t connection request.body c in
      let reply = reply_of env.new_message request r in
      ((if is_safe request.body then remember env connection request reply c' else c'), reply)

  unfoldable pub retry_or_perform : Env → Shutter → Connection → Request → Core B → Core B × Reply
  retry_or_perform env t connection request c =
      elim (find (has_key connection.uid request) c.cache) [
        | some e ↦ (c, from_cache same env request e)
        | none ↦
            if leb 256 (length (keep_if (λ e. e.uid == connection.uid) c.cache))
            then (c, error_reply env.new_message request resource_exhausted)
            else perform env t connection request c
      ]

  abbrev pub admit_bound : Connection → Body → Option Target → Core B → Core B × Fallible (Unit {0})
  admit_bound connection body none c = (c, ok tt)
  admit_bound connection body (some target) c = bound connection target (is_closing body) c

  abbrev serve_bound :
      Env → Shutter → Connection → Request → Core B × Fallible (Unit {0}) → Core B × Reply
  serve_bound env t connection request (c, err e) = (c, error_reply env.new_message request e)
  serve_bound env t connection request (c, ok _) =
      if is_safe request.body
      then retry_or_perform env t connection request c
      else perform env t connection request c

  unfoldable pub process : Env → Shutter → Connection → Request → Core B → Core B × Reply
  process env t connection request c =
      if not (valid request)
      then (c, error_reply env.new_message request invalid_argument)
      else let kept = maintain env.maintained_at c in
        if not (authorized kept connection.uid) || env.cancelled_first
        then (kept, error_reply env.new_message request unauthorized)
        else serve_bound env t connection request
            (admit_bound connection request.body (target_of request.body) kept)
