-- ===== src/HeadRotation/Sound.antt =====
-- modules/file_mgr/head_rotation.rs: the index never names a head whose files are missing.
use al.Prelude.{
  ◌%◌, ◌^◌, ◌≤◌, ◌≡◌, ◌≢◌, ◌⊎◌, refl, sym, ◌∙◌, ap, subst, true, Option, none, List, [], ◌∷◌, inl,
  inr, length, All, ==_false,
}
use al.HeadRotation.{
  HeadId, HeadRecord, max_heads_per_workspace, Disk, Cache, put, remove_mpk, remove_manifest,
  is_some,
}

-- The files of a head are there.
unfoldable pub HasFiles : Disk → HeadRecord → Type 0
HasFiles d r = (is_some (d.mpks r.head_id) ≡ true) × (is_some (d.manifests r.head_id) ≡ true)

unfoldable pub Absent : HeadId → List HeadRecord → Type 0
Absent id rs = All (λ r. id ≢ r.head_id) rs

unfoldable pub Distinct : List HeadRecord → Type 0
Distinct [] = Unit
Distinct (r ∷ rs) = Absent r.head_id rs × Distinct rs

-- At most two heads, of different ids, with their files.
pub record Good (d : Disk) (heads : List HeadRecord) : Type 0 where
  pub files : All (HasFiles d) heads
  pub distinct : Distinct heads
  pub few : length heads ≤ max_heads_per_workspace

pub record Sound (d : Disk) (c : Cache) : Type 0 where
  pub index : Good d d.index
  pub cached : Good d c.heads

-- Where the publication of `next` over the index `old` may stop.
pub record Safe (old next : List HeadRecord) (d : Disk) (c : Cache) : Type 0 where
  pub sound : Sound d c
  pub published : (d.index ≡ old) ⊎ (d.index ≡ next)

-- Where it is done.
pub record Published (next : List HeadRecord) (d : Disk) (c : Cache) : Type 0 where
  pub index : d.index ≡ next
  pub cached : c.heads ≡ next
  pub count : d.head_count ≡ length next % 2 ^ 8
  pub cached_count : c.head_count ≡ length next % 2 ^ 8
  pub good : Good d next

pub Published-Safe :
    (old next : List HeadRecord) (d : Disk) (c : Cache) → Published next d c → Safe old next d c
Published-Safe old next d c p = record {
  sound = record {
    index = subst (Good d) (sym p.index) p.good;
    cached = subst (Good d) (sym p.cached) p.good;
  };
  published = inr p.index;
}

pub All-weaken :
    {P Q : HeadRecord → Type 0} (rs : List HeadRecord)
    → ((r : HeadRecord) → P r → Q r)
    → All P rs
    → All Q rs
All-weaken [] f h = tt
All-weaken (r ∷ rs) f h = (f r h.0, All-weaken rs f h.1)

-- Taking away the file of a head that is not in the list.
removed-files :
    (id : HeadId) (d d' : Disk) (heads : List HeadRecord)
    → ((j : HeadId) → id ≢ j → (d'.mpks j ≡ d.mpks j) × (d'.manifests j ≡ d.manifests j))
    → Absent id heads
    → All (HasFiles d) heads
    → All (HasFiles d') heads
unfolding Absent HasFiles
removed-files id d d' [] same absent h = tt
removed-files id d d' (r ∷ rs) same absent h =
    let (mpk, manifest) = same r.head_id absent.0 in
    (
      (ap is_some mpk ∙ h.0.0, ap is_some manifest ∙ h.0.1),
      removed-files id d d' rs same absent.1 h.1,
    )

put_other :
    {A : Type 0} (files : HeadId → Option A) (id : HeadId) (content : Option A) (j : HeadId)
    → id ≢ j
    → put files id content j ≡ files j
unfolding put
put_other files id content j ne = rw (==_false id j ne) refl

module _ (d d' : Disk) (mpks : d'.mpks ≡ d.mpks) (manifests : d'.manifests ≡ d.manifests) where
  pub Good-same : (heads : List HeadRecord) → Good d heads → Good d' heads
  unfolding HasFiles
  Good-same heads g = record {
    files =
        All-weaken heads
          (λ r h. (
            ap (λ f. is_some (f r.head_id)) mpks ∙ h.0,
            ap (λ f. is_some (f r.head_id)) manifests ∙ h.1,
          ))
          g.files;
    distinct = g.distinct;
    few = g.few;
  }

  pub Safe-same :
      (old next : List HeadRecord) (c : Cache)
      → d'.index ≡ d.index
      → Safe old next d c
      → Safe old next d' c
  Safe-same old next c index s = record {
    sound = record {
      index = subst (Good d') (sym index) (Good-same d.index s.sound.index);
      cached = Good-same c.heads s.sound.cached;
    };
    published = elim s.published [ inl e ↦ inl (index ∙ e) | inr e ↦ inr (index ∙ e) ];
  }

-- A file of a head that is not in the list goes.
Good-removed :
    (id : HeadId) (d d' : Disk) (heads : List HeadRecord)
    → ((j : HeadId) → id ≢ j → (d'.mpks j ≡ d.mpks j) × (d'.manifests j ≡ d.manifests j))
    → Absent id heads
    → Good d heads
    → Good d' heads
Good-removed id d d' heads same absent g = record {
  files = removed-files id d d' heads same absent g.files;
  distinct = g.distinct;
  few = g.few;
}

module _ (id : HeadId) (next : List HeadRecord) (d : Disk) (c : Cache) (absent : Absent id next)
    (p : Published next d c) where
  pub Published-remove_mpk : Published next (remove_mpk id d) c
  unfolding remove_mpk
  Published-remove_mpk = record {
    index = p.index;
    cached = p.cached;
    count = p.count;
    cached_count = p.cached_count;
    good = Good-removed id d _ next (λ j ne. (put_other d.mpks id none j ne, refl)) absent p.good;
  }

  pub Published-remove_manifest : Published next (remove_manifest id d) c
  unfolding remove_manifest
  Published-remove_manifest = record {
    index = p.index;
    cached = p.cached;
    count = p.count;
    cached_count = p.cached_count;
    good =
        Good-removed id d _ next (λ j ne. (refl, put_other d.manifests id none j ne)) absent p.good;
  }
