-- ===== src/Core/Retry.antt =====
-- The retry cache, when a request that is safe to retry is sent again (device/core/src/core.rs,
-- `process`).
use donkeywork_desktop.Base.{
  ℕ, ◌+◌, ◌<◌, ◌≡◌, refl, sym, ap, ◌∙◌, Bool, true, false, Option, none, some, List, [], ◌∷◌, ok,
  arith, inl, inr, Bool-cases, leb, ltb, ◌==◌, find, keep_if, length,
}
use donkeywork_desktop.Core.Types.{
  Core, Backend, Connection, Request, Frame, Cached, Reply, Target, Body, retention,
}
use donkeywork_desktop.Core.Lifecycle.{maintain}
use donkeywork_desktop.Core.Admission.{authorized, bound}
use donkeywork_desktop.Core.Requests.{Env}
use donkeywork_desktop.Core.Screen.{Shutter}
use donkeywork_desktop.Core.Process.{
  is_safe, target_of, session_key, same_key, has_key, admit_bound, perform, retry_or_perform,
  process,
}
use donkeywork_desktop.Core.Revocation.{maintain_lem}

same_key_refl : (k : Option ℕ) → same_key k k ≡ true
same_key_refl none = refl
same_key_refl (some a) = ground arith

-- The entry that is found is found among those that are kept, too, where it is one of them.
find-keep_if :
    (p q : Cached → Bool) (xs : List Cached) (x : Cached)
    → find p xs ≡ some x
    → q x ≡ true
    → find p (keep_if q xs) ≡ some x
find-keep_if p q [] x h k = cc
find-keep_if p q (y ∷ ys) x h k = elim (Bool-cases (p y)) [
  | inl is ↦
      let same : y ≡ x = ground (arith, is, h) in
      let kept : q y ≡ true = ap q same ∙ k in rw kept (rw is (rw is at h))
  | inr is_not ↦
      let later = find-keep_if p q ys x (rw is_not at h) k in
      elim (Bool-cases (q y)) [ inl kept ↦ rw kept (rw is_not later) | inr gone ↦ rw gone later ]
]

-- What a performed request leaves in the cache.
record IsRemembered (env : Env) (connection : Connection) (request : Request) (reply : Reply)
    (cache : List Cached) : Type 0 where
  entry : Cached
  found : find (has_key connection.uid request) cache ≡ some entry
  request_kept : entry.request ≡ request
  reply_kept : entry.reply ≡ reply
  lives : entry.expires ≡ env.done_at + retention

module _ {B : Type 0} ⦃K : Backend B⦄ (valid : Request → Bool) (same : Request → Request → Bool)
    (png : Frame → Option (List (List ℕ))) where
  -- A request that passes the checks before the retry cache, with the state after them.
  pub record IsAdmitted (env : Env) (connection : Connection) (request : Request) (c d : Core B)
      : Type 0 where
    pub known : authorized (maintain env.maintained_at c) connection.uid ≡ true
    pub live : env.cancelled_first ≡ false
    pub joined :
        admit_bound valid same png connection request.body
          (target_of request.body)
          (maintain env.maintained_at c)
        ≡ (d, ok tt)

  admit_bound-cache :
      (connection : Connection) (body : Body) (target : Option Target) (c : Core B)
      → (admit_bound valid same png connection body target c).0.cache ≡ c.cache
  unfolding bound
  admit_bound-cache connection body none c = refl
  admit_bound-cache connection body (some target) c = ground arith

  -- An admitted request that is safe goes to the retry cache.
  process-admitted :
      (env : Env) (t : Shutter) (connection : Connection) (request : Request) (c d : Core B)
      → valid request ≡ true
      → is_safe request.body ≡ true
      → IsAdmitted env connection request c d
      → process valid same png env t connection request c
        ≡ retry_or_perform valid same png env t connection request d
  unfolding process
  process-admitted env t connection request c d v s a = simp (v, a.known, a.live, a.joined, s)

  perform_new :
      (env : Env) (t : Shutter) (connection : Connection) (request : Request) (d : Core B)
      → find (has_key connection.uid request) d.cache ≡ none
      → leb 256 (length (keep_if (λ (e : Cached). e.uid == connection.uid) d.cache)) ≡ false
      → retry_or_perform valid same png env t connection request d
        ≡ perform valid same png env t connection request d
  unfolding retry_or_perform
  perform_new env t connection request d new room = ground arith

  perform-IsRemembered :
      (env : Env) (t : Shutter) (connection : Connection) (request : Request) (c : Core B)
      → is_safe request.body ≡ true
      → let (d, reply) = perform valid same png env t connection request c in
        IsRemembered env connection request reply d.cache
  unfolding perform
  perform-IsRemembered env t connection request c safe =
      let (d, reply) = perform valid same png env t connection request c in
      rw safe (record {
        entry = record {
          uid = connection.uid;
          session = session_key (target_of request.body);
          message = request.message_id;
          request = request;
          reply = reply;
          expires = env.done_at + retention;
        };
        found = ground (arith, same_key_refl (session_key (target_of request.body)));
        request_kept = refl;
        reply_kept = refl;
        lives = refl;
      })

  retry_found :
      (env : Env) (t : Shutter) (connection : Connection) (request : Request) (d : Core B)
      (reply : Reply) (entry : Cached)
      → find (has_key connection.uid request) d.cache ≡ some entry
      → entry.request ≡ request
      → entry.reply ≡ reply
      → same request request ≡ true
      → retry_or_perform valid same png env t connection request d
        ≡ (d, record reply { message_id = env.new_message })
  unfolding retry_or_perform
  retry_found env t connection request d reply entry found req rep alike =
      let known : same entry.request request ≡ true = ap (λ r. same r request) req ∙ alike in
      ground (arith, known)

  -- A safe request that was new, and is sent again within the time to live of its reply, is not
  -- performed again, where it passes the checks of `process` once more, and whatever has become of the
  -- worker meanwhile, as long as its reply is still the one that the cache holds for it: the worker
  -- stays as these checks, with the maintenance, leave it, and the reply is the first one under a new
  -- message id.
  pub retry_once :
      (env env' : Env) (t t' : Shutter) (connection : Connection) (request : Request)
      (c d e f : Core B)
      → valid request ≡ true
      → same request request ≡ true
      → is_safe request.body ≡ true
      → IsAdmitted env connection request c d
      → find (has_key connection.uid request) d.cache ≡ none
      → leb 256 (length (keep_if (λ (x : Cached). x.uid == connection.uid) d.cache)) ≡ false
      → find (has_key connection.uid request) e.cache
        ≡ find
            (has_key connection.uid request)
            (process valid same png env t connection request c).0.cache
      → env'.maintained_at < env.done_at + retention
      → IsAdmitted env' connection request e f
      → process valid same png env' t' connection request e ≡ (
        f,
        record (process valid same png env t connection request c).1 {
          message_id = env'.new_message;
        },
      )
  retry_once env env' t t' connection request c d e f v alike safe first new room held early again =
      let once =
        process-admitted env t connection request c d v safe first
        ∙ perform_new env t connection request d new room in
      let r = perform-IsRemembered env t connection request d safe in
      let p = has_key connection.uid request in
      let now = env'.maintained_at in
      let there : find p e.cache ≡ some r.entry =
        held ∙ ap (λ q. find p q.0.cache) once ∙ r.found in
      let live : ltb now r.entry.expires ≡ true = ground (arith, r.lives) in
      let kept : f.cache ≡ keep_if (λ (x : Cached). ltb now x.expires) e.cache =
        sym (ap (λ q. q.0.cache) again.joined)
        ∙ admit_bound-cache connection request.body (target_of request.body) (maintain now e)
        ∙ (maintain_lem now e).1 in
      let found : find p f.cache ≡ some r.entry =
        ap (find p) kept ∙ find-keep_if p (λ x. ltb now x.expires) e.cache r.entry there live in
      let reply = (process valid same png env t connection request c).1 in
      process-admitted env' t' connection request e f v safe again
      ∙ retry_found env' t' connection request f reply r.entry found r.request_kept
          (r.reply_kept ∙ sym (ap (λ q. q.1) once)) alike
