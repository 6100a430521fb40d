-- ===== src/Streams/Prefix.antt =====
-- A part of a stream of frames, cut anywhere: whole frames, and the beginning of one more.
use yapyap.Prelude.{
  ℕ, ◌+◌, ◌≤◌, ◌<◌, ◌≡◌, refl, sym, ap, subst, ◌∙◌, List, [], ◌∷◌, ◌++◌, append_assoc, arith, inl,
  inr, length, length-append, drop, ltb, ltb→lt, Bool-cases,
}
use yapyap.Framing.{Bytes, get_uint32, frame, max_frame_size_bytes}
use yapyap.Framing.Header.{length-frame, get_uint32-frame}
use yapyap.Framing.Frames.{frames_of, AllFit, IsPartial}

abbrev first_of : Bytes → ℕ
first_of [] = 0
first_of (b ∷ bs) = b

-- Two ways to write one list, the first part of one at least as long as that of the other.
append-split :
    (f b c d : Bytes)
    → b ++ c ≡ f ++ d
    → length f ≤ length b
    → (more : Bytes) × (b ≡ f ++ more) × (more ++ c ≡ d)
append-split [] b c d e h = (b, refl, e)
append-split (x ∷ f) [] c d e h = absurd (omega (arith, h))
append-split (x ∷ f) (y ∷ b) c d e h =
    let (more, whole, behind) = append-split f b c d (ap (drop 1) e) (omega (arith, h)) in
    (more, ap (λ n. n ∷ b) (ap first_of e) ∙ ap (λ bs. x ∷ bs) whole, behind)

get_uint32-prefix : (b c : Bytes) → 4 ≤ length b → get_uint32 (b ++ c) ≡ get_uint32 b
unfolding get_uint32
get_uint32-prefix [] c h = absurd (omega (arith, h))
get_uint32-prefix (p ∷ []) c h = absurd (omega (arith, h))
get_uint32-prefix (p ∷ q ∷ []) c h = absurd (omega (arith, h))
get_uint32-prefix (p ∷ q ∷ r ∷ []) c h = absurd (omega (arith, h))
get_uint32-prefix (p ∷ q ∷ r ∷ s ∷ b) c h = refl

-- What comes before the size that a frame has, and has the header, is partial.
IsPartial-before :
    (b c : Bytes) (size : ℕ)
    → get_uint32 (b ++ c) ≡ size
    → size ≤ max_frame_size_bytes
    → length b < size + 4
    → IsPartial b
IsPartial-before b c size e fit short = elim (Bool-cases (ltb (length b) 4)) [
  | inl few ↦ inl (ltb→lt (length b) 4 few)
  | inr enough ↦
      let same = get_uint32-prefix b c (ground (arith, enough)) in
      inr (omega (arith, same, e, fit), omega (arith, same, e, short))
]

prefix-IsPartial : (b c : Bytes) → IsPartial (b ++ c) → IsPartial b
prefix-IsPartial b c (inl few) = inl (omega (arith, few, length-append b c))
prefix-IsPartial b c (inr (fit, short)) =
    IsPartial-before b c (get_uint32 (b ++ c)) refl fit (omega (arith, short, length-append b c))

-- `b` is the beginning of the frames of `ps` and of `rest`, and `c` what follows it.
pub record Cut (ps : List Bytes) (rest b c : Bytes) : Type 0 where
  pub whole : List Bytes
  pub left : List Bytes
  pub part : Bytes
  pub together : ps ≡ whole ++ left
  pub before : b ≡ frames_of whole ++ part
  pub partial : IsPartial part
  pub behind : part ++ c ≡ frames_of left ++ rest

pub cut :
    (ps : List Bytes) (rest b c : Bytes)
    → AllFit ps
    → IsPartial rest
    → b ++ c ≡ frames_of ps ++ rest
    → Cut ps rest b c
cut [] rest b c fit p e = record {
  whole = [];
  left = [];
  part = b;
  together = refl;
  before = refl;
  partial = prefix-IsPartial b c (subst IsPartial (sym e) p);
  behind = e;
}
cut (q ∷ ps) rest b c (fits, fit) p e =
    let e' = e ∙ append_assoc (frame q) (frames_of ps) rest in
    elim (Bool-cases (ltb (length b) (length (frame q)))) [
      | inl less ↦ record {
        whole = [];
        left = q ∷ ps;
        part = b;
        together = refl;
        before = refl;
        partial =
            IsPartial-before b c (length q)
              (ap get_uint32 e' ∙ get_uint32-frame q (frames_of ps ++ rest) fits) fits
              (omega (arith, ltb→lt (length b) (length (frame q)) less, length-frame q));
        behind = e;
      }
      | inr enough ↦
          let (more, joined, behind) =
            append-split (frame q) b c (frames_of ps ++ rest) e' (ground (arith, enough)) in
          let next = cut ps rest more c fit p behind in
          record {
            whole = q ∷ next.whole;
            left = next.left;
            part = next.part;
            together = ap (λ xs. q ∷ xs) next.together;
            before =
                joined
                ∙ ap (λ bs. frame q ++ bs) next.before
                ∙ sym (append_assoc (frame q) (frames_of next.whole) next.part);
            partial = next.partial;
            behind = next.behind;
          }
    ]

-- What is partial has no whole frame.
pub partial-no_frame :
    (q : Bytes) (more : Bytes) → length q ≤ max_frame_size_bytes → IsPartial (frame q ++ more) → ⊥
partial-no_frame q more fits (inl few) =
    omega (arith, few, length-append (frame q) more, length-frame q)
partial-no_frame q more fits (inr (fit, short)) =
    omega (arith, short, get_uint32-frame q more fits, length-append (frame q) more, length-frame q)

pub partial-lt : (b : Bytes) → IsPartial b → length b < max_frame_size_bytes + 4
partial-lt b (inl few) = omega (arith, few)
partial-lt b (inr (fit, short)) = omega (arith, fit, short)
