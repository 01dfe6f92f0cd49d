-- ===== src/StagedDelete/Settles.antt =====
-- modules/file_mgr/staging.rs, recovery.rs: a recovery without failures leaves nothing behind.
use al.Prelude.{
  ℕ, zero, suc, ◌+◌, ◌*◌, ◌≤◌, ◌<◌, ◌≡◌, ◌⊎◌, refl, sym, ◌∙◌, subst, Bool, true, false, not, arith,
  [], if◌then◌else◌, inl, inr,
}
use al.Effects.{World, Run, done, no_effect}
use al.Effects.Clean.{Clean, Clean-bind, Clean-attempt}
use al.StagedDelete.{
  default_delete_batch_entries, Entries, nil, DrainResult, finished, more, error, died, Drained,
  drain_dir,
}
use al.StagedDelete.Drain.{size, drain_dir-Batch}
use al.StagedDelete.Unfailed.{drain_dir-Unfailed}
use al.StagedDelete.Protocol.{
  Payload, missing, single, tree, Staging, FileError, io, is_missing, put_tombstone, put_stage_dir,
  put_payload, drained, drain_payload, drain_staged_payload, drain_loop, remove_payload,
  remove_stage_dir, remove_tombstone, finalize_staged_delete,
}

unfoldable pub payload_size : Payload → ℕ
payload_size missing = 0
payload_size single = 1
payload_size (tree es) = size es

-- The payload is gone, or an empty directory.
pub data Emptied : Payload → Type 0 where
  gone : Emptied missing
  empty : Emptied (tree nil)

-- A batch of at most 256 entries: it is done, or it has removed 256 and some are left.
record Progress (s : Staging) (drain_done : Bool) (s' : Staging) : Type 0 where
  target : s'.target ≡ s.target
  ended : drain_done ≡ true → Emptied s'.payload
  fewer :
      drain_done ≡ false
      → (payload_size s'.payload + 256 ≤ payload_size s.payload) × (0 < payload_size s'.payload)

drained_lem :
    (s : Staging) (es : Entries) (r : Drained) (result : DrainResult)
    → s.payload ≡ tree es
    → (r.fates ≡ [])
    → (result ≡ finished) ⊎ (result ≡ more)
    → (result ≡ finished → r.left ≡ nil)
    → (result ≡ more → (size r.left + 256 ≤ size es) × (0 < size r.left))
    → Clean (Progress s) (drained s r result)
unfolding Clean drained put_payload payload_size
drained_lem s es r finished e f goes empties full = (
  true,
  _,
  refl,
  f,
  record {
    target = refl;
    ended = λ _. subst (λ l. Emptied (tree l)) (sym (empties refl)) empty;
    fewer = λ h. cc;
  },
)
drained_lem s es r more e f goes empties full =
    (false, _, refl, f, record { target = refl; ended = λ h. cc; fewer = λ h. rw e (full refl) })
drained_lem s es r error e f goes empties full = elim goes [ inl h ↦ cc | inr h ↦ cc ]
drained_lem s es r died e f goes empties full = elim goes [ inl h ↦ cc | inr h ↦ cc ]

drain_payload_lem :
    (q : Payload) (w : World Staging)
    → w.fates ≡ []
    → w.state.payload ≡ q
    → Clean (Progress w.state) (drain_payload default_delete_batch_entries q w)
unfolding drain_payload Clean put_payload
drain_payload_lem missing w f e = (
  true,
  w,
  refl,
  f,
  record { target = refl; ended = λ _. subst Emptied (sym e) gone; fewer = λ h. cc },
)
drain_payload_lem single w f e =
    Clean-bind (λ _ s. Progress w.state true s) (Progress w.state) _ _
      (Clean-attempt (λ s. Progress w.state true s) io (put_payload missing) w f
        (record { target = refl; ended = λ _. gone; fewer = λ h. cc }))
      (λ _ v g p. (true, v, refl, g, p))
drain_payload_lem (tree es) w f e =
    let budget : ℕ = default_delete_batch_entries in
    let u = drain_dir-Unfailed budget es 0 (omega arith) in
    let b = drain_dir-Batch budget es 0 [] (omega arith) in
    subst
      (λ fs.
        Clean (Progress w.state)
          (drained w.state (drain_dir budget es 0 fs) (drain_dir budget es 0 fs).result))
      (sym f)
      (drained_lem w.state es (drain_dir budget es 0 []) _ e u.fates u.goes_on b.empty
        (λ h. (omega (arith, b.counted, (b.full h).0), (b.full h).1)))

drain_staged_payload_lem :
    (w : World Staging)
    → w.fates ≡ []
    → Clean (Progress w.state) (drain_staged_payload default_delete_batch_entries w)
unfolding drain_staged_payload no_effect
drain_staged_payload_lem w f =
    Clean-bind (λ _ s. s ≡ w.state) (Progress w.state) _ _
      (Clean-attempt (λ s. s ≡ w.state) io (λ s. s) w f refl)
      (λ _ v g same.
        subst
          (λ s. Clean (Progress s) (drain_payload default_delete_batch_entries v.state.payload v))
          same (drain_payload_lem v.state.payload v g refl))

-- The drain is done, and the target is as before.
pub record Emptying (s : Staging) (drain_done : Bool) (s' : Staging) : Type 0 where
  pub is_done : drain_done ≡ true
  pub target : s'.target ≡ s.target
  pub emptied : Emptied s'.payload

drain_next :
    (s : Staging) (iters : ℕ)
    → payload_size s.payload ≤ 256 * suc iters
    → ((v : World Staging)
        → v.fates ≡ []
        → 0 < payload_size v.state.payload
        → payload_size v.state.payload ≤ 256 * iters
        → Clean (Emptying v.state) (drain_loop iters v))
    → (drain_done : Bool) (v : World Staging) → v.fates ≡ []
    → Progress s drain_done v.state
    → Clean (Emptying s) (elim drain_done [ true ↦ done true v | false ↦ drain_loop iters v ])
unfolding Clean
drain_next s iters enough rest true v f p =
    (true, v, refl, f, record { is_done = refl; target = p.target; emptied = p.ended refl })
drain_next s iters enough rest false v f p =
    let (less, some_left) = p.fewer refl in
    let (b, u, e, g, q) = rest v f some_left (omega (arith, less, enough)) in
    (b, u, e, g, record { is_done = q.is_done; target = q.target ∙ p.target; emptied = q.emptied })

-- So many batches are enough for a payload of 256 times as many entries.
pub drain_loop_lem :
    (iters : ℕ) (w : World Staging)
    → w.fates ≡ []
    → payload_size w.state.payload ≤ 256 * suc iters
    → Clean (Emptying w.state) (drain_loop (suc iters) w)
unfolding drain_loop
drain_loop_lem zero w f enough =
    Clean-bind (Progress w.state) (Emptying w.state) _ _ (drain_staged_payload_lem w f)
      (drain_next w.state zero enough (λ v g some_left le. absurd (omega (arith, some_left, le))))
drain_loop_lem (suc iters) w f enough =
    Clean-bind (Progress w.state) (Emptying w.state) _ _ (drain_staged_payload_lem w f)
      (drain_next w.state (suc iters) enough (λ v g some_left le. drain_loop_lem iters v g le))

pub Clean-if :
    {A : Type 0} (Q : A → Staging → Type 0) (b : Bool) (x y : Run Staging FileError A)
    → (b ≡ true → Clean Q x)
    → (b ≡ false → Clean Q y)
    → Clean Q (if b then x else y)
Clean-if Q true x y hx hy = hx refl
Clean-if Q false x y hx hy = hy refl

-- Nothing is staged.
pub record Settled (t : Payload) (s : Staging) : Type 0 where
  pub target : s.target ≡ t
  pub tombstone : s.tombstone ≡ false
  pub stage_dir : s.stage_dir ≡ false
  pub payload : s.payload ≡ missing

abbrev NoPayload : Payload → Staging → Type 0
NoPayload t s = (s.target ≡ t) × (s.payload ≡ missing)

abbrev NoStage : Payload → Staging → Type 0
NoStage t s = (s.target ≡ t) × (s.payload ≡ missing) × (s.stage_dir ≡ false)

remove_payload_lem :
    (t q : Payload) (w : World Staging)
    → w.fates ≡ []
    → w.state.target ≡ t
    → w.state.payload ≡ q
    → Emptied q
    → Clean (λ _. NoPayload t) (remove_payload q w)
unfolding remove_payload Clean put_payload
remove_payload_lem t q w f here e gone = (tt, w, refl, f, (here, e))
remove_payload_lem t q w f here e empty =
    Clean-attempt (NoPayload t) io (put_payload missing) w f (here, refl)

remove_stage_dir_lem :
    (t : Payload) (w : World Staging)
    → w.fates ≡ []
    → NoPayload t w.state
    → Clean (λ _. NoStage t) (remove_stage_dir w)
unfolding remove_stage_dir Clean put_stage_dir is_missing
remove_stage_dir_lem t w f (here, none) =
    Clean-if (λ _. NoStage t) (not w.state.stage_dir) _ _
      (λ e. (tt, w, refl, f, (here, none, ground arith)))
      (λ _.
        Clean-if (λ _. NoStage t) (is_missing w.state.payload) _ _
          (λ _. Clean-attempt (NoStage t) io (put_stage_dir false) w f (here, none, refl))
          (λ e.
            let clash : is_missing missing ≡ false = subst (λ q. is_missing q ≡ false) none e in
            cc))

remove_tombstone_lem :
    (t : Payload) (w : World Staging)
    → w.fates ≡ []
    → NoStage t w.state
    → Clean (λ _. Settled t) (remove_tombstone w)
unfolding remove_tombstone Clean put_tombstone
remove_tombstone_lem t w f (here, none, bare) =
    Clean-if (λ _. Settled t) w.state.tombstone _ _
      (λ _.
        Clean-attempt (Settled t) io (put_tombstone false) w f
          (record { target = here; tombstone = refl; stage_dir = bare; payload = none }))
      (λ e.
        (tt, w, refl, f, record { target = here; tombstone = e; stage_dir = bare; payload = none }))

pub finalize_lem :
    (t : Payload) (w : World Staging)
    → w.fates ≡ []
    → w.state.target ≡ t
    → Emptied w.state.payload
    → Clean (λ _. Settled t) (finalize_staged_delete w)
unfolding finalize_staged_delete no_effect
finalize_lem t w f here e =
    Clean-bind (λ _ s. (s.target ≡ t) × Emptied s.payload) (λ _. Settled t) _ _
      (Clean-attempt (λ s. (s.target ≡ t) × Emptied s.payload) io (λ s. s) w f (here, e))
      (λ _ w f h.
        Clean-bind (λ _. NoPayload t) (λ _. Settled t) _ _
          (remove_payload_lem t w.state.payload w f h.0 refl h.1)
          (λ _ w f h.
            Clean-bind (λ _. NoStage t) (λ _. Settled t) _ _ (remove_stage_dir_lem t w f h)
              (λ _ w f h.
                Clean-bind (λ _. Settled t) (λ _. Settled t) _ _ (remove_tombstone_lem t w f h)
                  (λ _ w f h. Clean-attempt (Settled t) io (λ s. s) w f h))))
