-- ===== src/LogPage/Cursor.antt =====
-- modules/file_mgr/log_page.rs: the page after a page goes on where it ended.
use al.Prelude.{
  ℕ, ◌≤◌, ◌<◌, ◌≡◌, zero, suc, refl, sym, ap, ◌∙◌, subst, Option, none, some, List, [], ◌∷◌, ◌++◌,
  leb, leb→le, le→leb, length, take, drop, take-append-drop, All, arith, inl, inr, Bool-cases,
  Option-cases,
}
use al.LogPage.{
  LogEvent, LogPageResp, Lines, end_of_file, broken, line, opened, ok, clamp, max_log_page_limit,
  newer_than, read_event, read_jsonl_page,
}
use al.LogPage.Pages.{
  cons?, last_seq, outcome, page_of, ending_of, error_of, events_after, read_jsonl_page-opened,
}

unfoldable pub Ascending : List LogEvent → Type 0
Ascending [] = Unit
Ascending (e ∷ es) = All (λ r. e.seq < r.seq) es × Ascending es

unfoldable keep : ℕ → List LogEvent → List LogEvent
keep a [] = []
keep a (e ∷ es) = cons? (newer_than a (some e)) (keep a es)

keep-none : (a b : ℕ) (es : List LogEvent) → All (λ r. b < r.seq) es → a ≤ b → keep a es ≡ es
unfolding keep newer_than cons?
keep-none a b [] h le = refl
keep-none a b (e ∷ es) h le = ground (arith, h.0, keep-none a b es h.1 le)

keep-nil : (a : ℕ) → keep a [] ≡ []
unfolding keep
keep-nil a = refl

keep-old : (a : ℕ) (e : LogEvent) (es : List LogEvent) → e.seq ≤ a → keep a (e ∷ es) ≡ keep a es
unfolding keep newer_than cons?
keep-old a e es h = rw (le→leb e.seq a h) refl

keep-new : (a : ℕ) (e : LogEvent) (es : List LogEvent) → a < e.seq → keep a (e ∷ es) ≡ e ∷ keep a es
unfolding keep newer_than cons?
keep-new a e es h = ground arith

-- The cursor after the first `n` events that are kept keeps the others.
keep-resume :
    (a n : ℕ) (es : List LogEvent)
    → Ascending es
    → (a ≤ last_seq a (take n (keep a es)))
      × (keep (last_seq a (take n (keep a es))) es ≡ drop n (keep a es))
unfolding last_seq Ascending
keep-resume a zero es h = (omega arith, refl)
keep-resume a (suc m) [] h = rw (keep-nil a) (omega arith, keep-nil a)
keep-resume a (suc m) (e ∷ es) h = elim (Bool-cases (leb e.seq a)) [
  | inl old ↦
      let le = leb→le _ _ old in
      let (above, same) = keep-resume a (suc m) es h.1 in
      rw (keep-old a e es le) (above, keep-old _ e es (omega (arith, le, above)) ∙ same)
  | inr new ↦
      let lt : a < e.seq = ground arith in
      let whole = keep-none a e.seq es h.0 (omega (arith, lt)) in
      let same = keep-none e.seq e.seq es h.0 (omega arith) in
      let below = keep-resume e.seq m es h.1 in
      let (above, rest) = rw same at below in
      rw (keep-new a e es lt, whole) (omega (arith, lt, above), keep-old _ e es above ∙ rest)
]

take-length : (es : List LogEvent) → take (length es) es ≡ es
take-length [] = refl
take-length (e ∷ es) = ap (◌∷◌ e) (take-length es)

module _ (from_str : List ℕ → Option LogEvent) where
  parsed : List ℕ → Option LogEvent
  parsed [] = none
  parsed (c ∷ cs) = from_str (c ∷ cs)

  -- The events of all the lines.
  unfoldable pub events_of : Lines → List LogEvent
  unfolding parsed
  events_of end_of_file = []
  events_of (broken e) = []
  events_of (line l ls) = cons? (parsed l) (events_of ls)

  events_after-keep : (a : ℕ) (ls : Lines) → events_after from_str a ls ≡ keep a (events_of ls)
  unfolding events_after events_of keep parsed read_event cons? newer_than
  events_after-keep a end_of_file = refl
  events_after-keep a (broken e) = refl
  events_after-keep a (line [] ls) = events_after-keep a ls
  events_after-keep a (line (c ∷ cs) ls) = elim (Option-cases (from_str (c ∷ cs))) [
    | inl skipped ↦ rw (skipped, read_event) (events_after-keep a ls)
    | inr (evt, read) ↦
        rw (read, read_event) (ap (cons? (newer_than a (some evt))) (events_after-keep a ls))
  ]

  resumed :
      (a n : ℕ) (ls : Lines)
      → Ascending (events_of ls)
      → let es = take n (events_after from_str a ls) in
        es ++ events_after from_str (last_seq a es) ls ≡ events_after from_str a ls
  resumed a n ls h =
      rw (events_after-keep a ls, events_after-keep _ ls, (keep-resume a n (events_of ls) h).1)
        (take-append-drop n (keep a (events_of ls)))

  -- In a file whose events ascend, at any cursor and limit: the events of a page, followed by those
  -- after its next cursor, are all the events after the cursor.
  pub read_jsonl_page-resumes :
      (ls : Lines) (after_seq limit : ℕ) (p : LogPageResp)
      → Ascending (events_of ls)
      → read_jsonl_page from_str (opened ls) after_seq limit ≡ ok p
      → p.events ++ events_after from_str p.next_after_seq ls ≡ events_after from_str after_seq ls
  unfolding outcome page_of ending_of
  read_jsonl_page-resumes ls after_seq limit p ascending h =
      let n = clamp limit 1 max_log_page_limit in
      let es = events_after from_str after_seq ls in
      let h1 = sym (read_jsonl_page-opened from_str ls after_seq limit) ∙ h in
      let resumes : LogPageResp → Type 0 =
        λ q. q.events ++ events_after from_str q.next_after_seq ls ≡ es in
      elim (Bool-cases (leb n (length es))) [
        | inl enough ↦
            let h2 = rw enough at h1 in
            let same : page_of after_seq (take n es) ≡ p = cc in
            subst resumes same (resumed after_seq n ls ascending)
        | inr few ↦
            let h2 = rw few at h1 in
            let all = resumed after_seq (length es) ls ascending in
            elim (Option-cases (error_of ls)) [
              | inl whole ↦
                  let h3 = rw whole at h2 in
                  let same : page_of after_seq es ≡ p = cc in
                  subst resumes same (rw (take-length es) at all)
              | inr (e, bad) ↦ let h3 = rw bad at h2 in cc
            ]
      ]
