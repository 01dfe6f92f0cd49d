-- ===== src/ActiveHead/Tests.antt =====
-- modules/file_mgr/active_head_writer.rs, recovery.rs: two generations, of which the newer is damaged.
use al.Prelude.{ℕ, ◌≡◌, refl, subst, if◌then◌else◌, Bool, true, Option, none, some, List, [], ◌∷◌}
use al.Prelude.Utf8.{ascii}
use al.Common.Hex.{hex_lowercase}
use al.Effects.{succeeds, fails_before, crashes, World, final}
use al.Effects.Triples.{Holds}
use al.ActiveHead.{
  Bytes, head, ActiveHeadManifest, validate, validate_origin, validate_activation_id, bad_byte_from,
  Generation, points, Active, labels_to_text,
}
use al.ActiveHead.Stage.{HeadSource, head_input, post_active}
use al.ActiveHead.Recovery.{recover_active_head}
use al.ActiveHead.Steps.{Verified, Serves}
use al.Common.Bytes.{is_allowed_component_byte}
use al.ActiveHead.Recovers.{Recovered, recover_active_head-Recovered}
use al.ActiveHead.Life.{Activated, post_active-Activated, begin, luck, activate, boot, Life-Serves}
use al.Prelude.Texts.{same_text}

-- A digest of as many bytes as there are.
abbrev digest : Bytes → Bytes
digest bytes = bytes

abbrev loads : Option Bytes → Option Bytes → ℕ → Bool
loads mpk labels id = true

abbrev labels : List Bytes
labels = ascii "dog" ∷ ascii "cat" ∷ []

abbrev manifest : Bytes → ActiveHeadManifest
manifest now = record {
  origin = head 7 5 1;
  runtime_head_id = 5;
  sha256 = hex_lowercase (1 ∷ 2 ∷ []);
  labels_sha256 = hex_lowercase (labels_to_text labels);
  n_classes = 2;
  labels = labels;
  activated_at = now;
}

abbrev older : Generation
older = record {
  manifest = some (manifest (ascii "2026-01-01"));
  head_mpk = some (1 ∷ 2 ∷ []);
  labels_txt = none;
  mtime = 1;
}

abbrev damaged : Generation
damaged = record {
  manifest = some (manifest (ascii "2026-01-02"));
  head_mpk = some (1 ∷ []);
  labels_txt = none;
  mtime = 2;
}

abbrev generations : Bytes → Option Generation
generations id =
    if same_text id (ascii "a")
    then some older
    else if same_text id (ascii "b")
    then some damaged
    else none

abbrev listing : List Bytes
listing = ascii "a" ∷ ascii "b" ∷ []

abbrev world : World Active
world = record {
  state = record {
    current = points (ascii "b");
    generations_dir = true;
    generations = generations;
    staging = λ id. none;
    runtime = none;
  };
  fates = succeeds ∷ succeeds ∷ succeeds ∷ [];
}

c-named : validate_activation_id (ascii "c") ≡ none
unfolding validate_activation_id bad_byte_from is_allowed_component_byte
c-named = refl

recover_active_head-Recovered_example :
    Holds
      (Recovered digest loads)
      (λ _. Unit)
      (recover_active_head digest loads listing none (ascii "c") (ascii "2026-01-03") 3 world)
recover_active_head-Recovered_example =
    recover_active_head-Recovered digest loads listing none (ascii "c") (ascii "2026-01-03") 3 world
      c-named

abbrev source : HeadSource
source = record {
  workspace_id = 7;
  head_id = 5;
  manifest = some (record {
    head_id = 5;
    workspace_id = 7;
    workspace_revision = 1;
    sha256 = hex_lowercase (1 ∷ 2 ∷ []);
    n_classes = 2;
    size_bytes = 2;
    created_at = 5;
    labels = labels;
  });
  mpk = some (1 ∷ 2 ∷ []);
}

-- The pointer names the older one.
abbrev sound : World Active
sound = record world { state = record world.state { current = points (ascii "a") } }

sound-Serves : Serves digest sound.state
unfolding Serves same_text validate validate_origin validate_activation_id bad_byte_from
    is_allowed_component_byte
sound-Serves id e =
    let same : ascii "a" ≡ id = cc in
    (
      manifest (ascii "2026-01-01"),
      subst (λ id. Verified digest sound.state id (manifest (ascii "2026-01-01"))) same
          (record {
            whole = record {
              generation = older;
              there = refl;
              manifest = refl;
              valid = refl;
              bytes = 1 ∷ 2 ∷ [];
              head = refl;
              hash = refl;
            };
            named = refl;
          }),
    )

post_active-Activated_example :
    Holds
      (λ m s. Serves digest s × Activated digest loads (ascii "c") m s)
      (Serves digest)
      (post_active digest loads listing
        (head_input source)
        (ascii "c")
        (ascii "2026-01-03")
        3
        sound)
post_active-Activated_example =
    post_active-Activated digest loads listing (head_input source) (ascii "c") (ascii "2026-01-03")
      3 sound c-named sound-Serves

abbrev activated : World Active
activated =
    final (
      post_active digest loads listing (head_input source) (ascii "c") (ascii "2026-01-03") 3 sound)

abbrev unlucky : World Active
unlucky = record activated { fates = succeeds ∷ fails_before ∷ crashes ∷ [] }

Life-Serves_example :
    Serves digest
      (final (
        recover_active_head digest loads listing none
          (ascii "c")
          (ascii "2026-01-04")
          4
          unlucky)).state
Life-Serves_example =
    Life-Serves digest loads sound
      (final
        (recover_active_head digest loads listing none (ascii "c") (ascii "2026-01-04") 4 unlucky))
      (boot
        (luck
          (activate begin listing (head_input source) (ascii "c") (ascii "2026-01-03") 3 c-named)
          unlucky.fates)
        listing none (ascii "c") (ascii "2026-01-04") 4 c-named)
      sound-Serves
