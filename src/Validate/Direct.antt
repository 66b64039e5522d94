-- ===== src/Validate/Direct.antt =====
-- src/fs.c: what the walk of validate_loaded_metadata makes sure of the direct pointers of the
-- inodes.
use denyfs.Prelude.{
  ℕ, zero, suc, ◌+◌, ◌<◌, ◌≡◌, ◌≢◌, refl, sym, ap, ◌∙◌, true, false, not, ltb, ltb→lt, ◌==◌, ==→eq,
  List, [], ◌∷◌, get_or, any, arith,
}
use denyfs.Layout.{invalid_block}
use denyfs.Volume.{Vol, eperm}
use denyfs.Volume.Yields.{
  Yields, Yields-weaken, Yields-pure, Yields-bind, Yields-require, Yields-if,
}
use denyfs.FileMap.{is_claimed}
use denyfs.Validate.{Claims, claim_entries, claim_root, no_block}
use denyfs.Validate.Reads.{OnlyReads}
use denyfs.Validate.Claiming.{Claimed, claim_metadata_block-Yields, Kept}

-- The block that direct pointer `i` names.
abbrev pub entry : List ℕ → ℕ → ℕ
entry blocks i = get_or blocks i invalid_block

-- The blocks of a list of pointers, the first of them pointer `i` of an inode that may have `n`
-- blocks: each is a data block in use that nothing had claimed, no two are the same, and all are
-- claimed afterwards.
pub record Takes (v : Vol) (n i : ℕ) (blocks : List ℕ) (before after : Claims) : Type 0 where
  pub grows : (b : ℕ) → before.claimed b ≡ true → after.claimed b ≡ true
  pub fresh : (j : ℕ) → entry blocks j ≢ invalid_block → before.claimed (entry blocks j) ≡ false
  pub used : (j : ℕ) → entry blocks j ≢ invalid_block → is_claimed v (entry blocks j) ≡ true
  pub taken : (j : ℕ) → entry blocks j ≢ invalid_block → after.claimed (entry blocks j) ≡ true
  pub inside : (j : ℕ) → entry blocks j ≢ invalid_block → i + j < n
  pub distinct :
      (j k : ℕ) → entry blocks j ≢ invalid_block → entry blocks j ≡ entry blocks k → j ≡ k

unnamed :
    (bs : List ℕ) (j : ℕ) → any (λ b. not (no_block b)) bs ≡ false → entry bs j ≡ invalid_block
unfolding any no_block
unnamed [] j h = refl
unnamed (b ∷ bs) zero h = ground arith
unnamed (b ∷ bs) (suc j) h = ground (arith, unnamed bs j)

module _ {v : Vol} where
  claimed_now :
      {b : ℕ} {before middle : Claims} → Claimed v b before middle → middle.claimed b ≡ true
  claimed_now {b} c = ap (λ (x : Claims). x.claimed b) c.result ∙ ground arith

  claimed_before :
      {b : ℕ} {before middle : Claims} (x : ℕ)
      → Claimed v b before middle
      → before.claimed x ≡ true
      → middle.claimed x ≡ true
  claimed_before {b} x c h = ap (λ (y : Claims). y.claimed x) c.result ∙ ground arith

  fresh_before :
      {b : ℕ} {before middle : Claims} (x : ℕ)
      → Claimed v b before middle
      → middle.claimed x ≡ false
      → before.claimed x ≡ false
  fresh_before x c h = ground (arith, claimed_before x c)

module _ {v : Vol} {n : ℕ} where
  Takes-none : (i : ℕ) (cl : Claims) → Takes v n i [] cl cl
  Takes-none i cl = record {
    grows = λ b h. h;
    fresh = λ j h. absurd (h refl);
    used = λ j h. absurd (h refl);
    taken = λ j h. absurd (h refl);
    inside = λ j h. absurd (h refl);
    distinct = λ j k h e. absurd (h refl);
  }

  Takes-skip :
      {i b : ℕ} {bs : List ℕ} {before after : Claims}
      → b ≡ invalid_block
      → Takes v n (i + 1) bs before after
      → Takes v n i (b ∷ bs) before after
  Takes-skip none t = record {
    grows = t.grows;
    fresh = elim [ zero ↦ λ h. absurd (h none) | suc j ↦ λ h. t.fresh j h ];
    used = elim [ zero ↦ λ h. absurd (h none) | suc j ↦ λ h. t.used j h ];
    taken = elim [ zero ↦ λ h. absurd (h none) | suc j ↦ λ h. t.taken j h ];
    inside = elim [ zero ↦ λ h. absurd (h none) | suc j ↦ λ h. omega (arith, t.inside j h) ];
    distinct = elim [
      | zero ↦ λ k h e. absurd (h none)
      | suc j ↦ elim [
        | zero ↦ λ h e. absurd (h (e ∙ none))
        | suc k ↦ λ h e. ap suc (t.distinct j k h e)
      ]
    ];
  }

  Takes-take :
      {i b : ℕ} {bs : List ℕ} {before middle after : Claims}
      → i < n
      → Claimed v b before middle
      → Takes v n (i + 1) bs middle after
      → Takes v n i (b ∷ bs) before after
  Takes-take {b = b} {middle = middle} below c t = record {
    grows = λ x h. t.grows x (claimed_before x c h);
    fresh = elim [ zero ↦ λ h. c.fresh | suc j ↦ λ h. fresh_before _ c (t.fresh j h) ];
    used = elim [ zero ↦ λ h. c.used | suc j ↦ λ h. t.used j h ];
    taken = elim [ zero ↦ λ h. t.grows b (claimed_now c) | suc j ↦ λ h. t.taken j h ];
    inside = elim [ zero ↦ λ h. omega arith | suc j ↦ λ h. omega (arith, t.inside j h) ];
    distinct = elim [
      | zero ↦ elim [
        | zero ↦ λ h e. refl
        | suc k ↦ λ h e. absurd (twice (sym e) (t.fresh k (λ z. h (e ∙ z))))
      ]
      | suc j ↦ elim [
        | zero ↦ λ h e. absurd (twice e (t.fresh j h))
        | suc k ↦ λ h e. ap suc (t.distinct j k h e)
      ]
    ];
  }
    where
      twice : {x : ℕ} → x ≡ b → middle.claimed x ≡ false → ⊥
      twice e h = ground (arith, claimed_now c, ap middle.claimed e)

  pub entries-Takes :
      (i : ℕ) (bs : List ℕ) (acc : Claims × ℕ)
      → Yields (OnlyReads v) (λ p. Takes v n i bs acc.0 p.0) (claim_entries n i bs acc)
  unfolding claim_entries
  entries-Takes i [] (cl, m) = Yields-pure _ (Takes-none i cl)
  entries-Takes i (b ∷ bs) (cl, m) =
      Yields-if (b == invalid_block) _ _
        (λ none.
          Yields-weaken (λ p t. Takes-skip (==→eq b _ none) t) (entries-Takes (i + 1) bs (cl, m)))
        λ _. Yields-bind _ _ (Yields-require (ltb i n) eperm) λ _ below.
          Yields-bind _ _ (claim_metadata_block-Yields b cl) λ after c.
            Yields-weaken (λ p t. Takes-take (ltb→lt i n below) c t)
              (entries-Takes (i + 1) bs (after, m + 1))

  pub root-Takes :
      (i : ℕ) (bs : List ℕ) (cl : Claims)
      → Yields (OnlyReads v) (Takes v n i bs cl) (claim_root n i bs cl)
  unfolding claim_root
  root-Takes i [] cl = Yields-pure _ (Takes-none i cl)
  root-Takes i (b ∷ bs) cl =
      Yields-if (b == invalid_block) _ _
        (λ none.
          Yields-bind _ _ (Yields-require (not (ltb i n)) eperm)
            λ _ _. Yields-weaken (λ p t. Takes-skip (==→eq b _ none) t) (root-Takes (i + 1) bs cl))
        λ _. Yields-bind _ _ (Yields-require (ltb i n) eperm) λ _ below.
          Yields-bind _ _ (claim_metadata_block-Yields b cl) λ after c.
            Yields-weaken (λ p t. Takes-take (ltb→lt i n below) c t) (root-Takes (i + 1) bs after)

  -- What claims only more keeps it.
  pub Takes-grows :
      {i : ℕ} {bs : List ℕ} {before middle after : Claims}
      → ((b : ℕ) → middle.claimed b ≡ true → after.claimed b ≡ true)
      → Takes v n i bs before middle
      → Takes v n i bs before after
  Takes-grows g t = record {
    grows = λ b h. g b (t.grows b h);
    fresh = t.fresh;
    used = t.used;
    taken = λ j h. g _ (t.taken j h);
    inside = t.inside;
    distinct = t.distinct;
  }

  -- A table of pointers that name nothing.
  pub Takes-clear :
      (bs : List ℕ) (cl : Claims) → any (λ b. not (no_block b)) bs ≡ false → Takes v n 0 bs cl cl
  Takes-clear bs cl clear = record {
    grows = λ b h. h;
    fresh = λ j h. absurd (h (unnamed bs j clear));
    used = λ j h. absurd (h (unnamed bs j clear));
    taken = λ j h. absurd (h (unnamed bs j clear));
    inside = λ j h. absurd (h (unnamed bs j clear));
    distinct = λ j k h e. absurd (h (unnamed bs j clear));
  }

-- Later claims contain the earlier ones.
pub grows-Kept :
    (v : Vol) (before : Claims)
    → Kept v (λ cl. (b : ℕ) → before.claimed b ≡ true → cl.claimed b ≡ true)
grows-Kept v before cl b used fresh g x h = ground (arith, g x h)
