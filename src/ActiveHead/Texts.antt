-- ===== src/ActiveHead/Texts.antt =====
-- modules/file_mgr/active_head_writer.rs: maps from texts.
use al.Prelude.{◌≡◌, refl, Option, Bool-cases, inl, inr, ◌≢◌}
use al.Prelude.Texts.{same_text, same_text_refl, same_text-true}
use al.ActiveHead.{Bytes, put}

module _ {A : Type 0} where
  pub put_self : (f : Bytes → Option A) (id : Bytes) (c : Option A) → put f id c id ≡ c
  unfolding put
  put_self f id c = rw (same_text_refl id) refl

  pub put-other : (f : Bytes → Option A) (id j : Bytes) (c : Option A) → id ≢ j → put f id c j ≡ f j
  unfolding put
  put-other f id j c ne = elim (Bool-cases (same_text id j)) [
    | inl e ↦ absurd (ne (same_text-true id j e))
    | inr e ↦ rw e refl
  ]
