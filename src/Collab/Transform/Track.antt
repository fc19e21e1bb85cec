-- ===== src/Collab/Transform/Track.antt =====
-- The positions that `transform` computes, against documents that are lists of units.
use Prim.Native.String.{len}
use talyvor_docs.Prelude.{
  ℕ, zero, suc, ◌+◌, ◌-◌, ◌≤◌, ◌<◌, ◌≡◌, Option, none, some, List, [], ◌∷◌, ◌++◌, arith, leb, ltb,
  if◌then◌else◌, length, length-append, get_elem?, refl, ◌∙◌, ◌>>=◌, >>=-eq-some,
}
use talyvor_docs.Prelude.Int.{pos, half_range, add_int-pos, sub_int-pos}
use talyvor_docs.Collab.Types.{Op, OpType}
use talyvor_docs.Collab.Transform.{shift, transform_op}

-- An edit of a document, with no transformation in it.
pub data Edit (A : Type 0) : Type 0 where
  put : ℕ → List A → Edit A
  cut : ℕ → ℕ → Edit A

module _ {A : Type 0} where
  abbrev pub put_at : ℕ → List A → List A → List A
  put_at zero w doc = w ++ doc
  put_at (suc p) w [] = w
  put_at (suc p) w (x ∷ doc) = x ∷ put_at p w doc

  abbrev pub cut_at : ℕ → ℕ → List A → List A
  cut_at p n [] = []
  cut_at (suc p) n (x ∷ doc) = x ∷ cut_at p n doc
  cut_at zero zero (x ∷ doc) = x ∷ doc
  cut_at zero (suc n) (x ∷ doc) = cut_at zero n doc

  abbrev pub edit : Edit A → List A → List A
  edit (put p w) doc = put_at p w doc
  edit (cut p n) doc = cut_at p n doc

  -- Where the unit at an index goes; a cut may remove it.
  abbrev pub track : Edit A → ℕ → Option ℕ
  track (put p w) i = some (if leb p i then i + length w else i)
  track (cut p n) i = if ltb i p then some i else if ltb i (p + n) then none else some (i - n)

  -- The operation that a client sends for an edit, which has room in the range of an `int`.
  abbrev pub Represents : Op → Edit A → Type 0
  Represents o (put p w) = (o.type ≡ OpType.insert) × (o.pos ≡ pos p) × (len o.content ≡ length w)
  Represents o (cut p n) = (o.type ≡ OpType.delete) × (o.pos ≡ pos p) × (o.length ≡ pos n)

  get_elem?-past : (w doc : List A) (i : ℕ) → get_elem? (w ++ doc) (i + length w) ≡ get_elem? doc i
  get_elem?-past [] doc i = let e : i + 0 ≡ i = omega arith in rw e
  get_elem?-past (x ∷ w) doc i =
      let e : i + suc (length w) ≡ suc (i + length w) = omega arith in rw e (get_elem?-past w doc i)

  put_at-before :
      (p : ℕ) (w doc : List A) (i : ℕ)
      → i < p
      → i < length doc
      → get_elem? (put_at p w doc) i ≡ get_elem? doc i
  put_at-before zero w doc i h k = absurd (omega arith)
  put_at-before (suc p) w [] i h k = absurd (omega arith)
  put_at-before (suc p) w (x ∷ doc) zero h k = refl
  put_at-before (suc p) w (x ∷ doc) (suc i) h k =
      put_at-before p w doc i (omega arith) (omega arith)

  put_at-after :
      (p : ℕ) (w doc : List A) (i : ℕ)
      → p ≤ i
      → i < length doc
      → get_elem? (put_at p w doc) (i + length w) ≡ get_elem? doc i
  put_at-after zero w doc i h k = get_elem?-past w doc i
  put_at-after (suc p) w doc zero h k = absurd (omega arith)
  put_at-after (suc p) w [] (suc i) h k = absurd (omega arith)
  put_at-after (suc p) w (x ∷ doc) (suc i) h k =
      let e : suc i + length w ≡ suc (i + length w) = omega arith in
      rw e (put_at-after p w doc i (omega arith) (omega arith))

  cut_at-before :
      (p n : ℕ) (doc : List A) (i : ℕ) → i < p → get_elem? (cut_at p n doc) i ≡ get_elem? doc i
  cut_at-before p n [] i h = refl
  cut_at-before zero n (x ∷ doc) i h = absurd (omega arith)
  cut_at-before (suc p) n (x ∷ doc) zero h = refl
  cut_at-before (suc p) n (x ∷ doc) (suc i) h = cut_at-before p n doc i (omega arith)

  cut_at-after :
      (p n : ℕ) (doc : List A) (i : ℕ)
      → p + n ≤ i
      → get_elem? (cut_at p n doc) (i - n) ≡ get_elem? doc i
  cut_at-after p n [] i h = refl
  cut_at-after (suc p) n (x ∷ doc) zero h = absurd (omega arith)
  cut_at-after (suc p) n (x ∷ doc) (suc i) h =
      let e : suc i - n ≡ suc (i - n) = omega arith in rw e (cut_at-after p n doc i (omega arith))
  cut_at-after zero zero (x ∷ doc) i h = let e : i - 0 ≡ i = omega arith in rw e
  cut_at-after zero (suc n) (x ∷ doc) zero h = absurd (omega arith)
  cut_at-after zero (suc n) (x ∷ doc) (suc i) h =
      let e : suc i - suc n ≡ i - n = omega arith in rw e (cut_at-after zero n doc i (omega arith))

  length-put_at : (p : ℕ) (w doc : List A) → length (put_at p w doc) ≡ length w + length doc
  length-put_at zero w doc = length-append w doc
  length-put_at (suc p) w [] = omega arith
  length-put_at (suc p) w (x ∷ doc) = omega (arith, length-put_at p w doc)

  length-cut_at :
      (p n : ℕ) (doc : List A) → p + n ≤ length doc → length (cut_at p n doc) + n ≡ length doc
  length-cut_at p n [] h = omega arith
  length-cut_at (suc p) n (x ∷ doc) h = omega (arith, length-cut_at p n doc)
  length-cut_at zero zero (x ∷ doc) h = omega arith
  length-cut_at zero (suc n) (x ∷ doc) h = omega (arith, length-cut_at zero n doc)

  -- The tracked unit is where `track` says, in the edited document.
  get_elem?-edit :
      (e : Edit A) (doc : List A) (i j : ℕ)
      → i < length doc
      → track e i ≡ some j
      → get_elem? (edit e doc) j ≡ get_elem? doc i
  get_elem?-edit (put p w) doc i j h t =
      ground (arith, put_at-after p w doc i, put_at-before p w doc i)
  get_elem?-edit (cut p n) doc i j h t =
      ground (arith, cut_at-after p n doc i, cut_at-before p n doc i)

  -- The edit lies inside the document, whose length stays in the range of an `int`.
  abbrev pub Fits : Edit A → List A → Type 0
  Fits (put p w) doc = (p ≤ length doc) × (length w + length doc < half_range)
  Fits (cut p n) doc = (p + n ≤ length doc) × (length doc < half_range)

  shift-track :
      (o c : Op) (e : Edit A) (doc : List A) (i j : ℕ)
      → Represents c e
      → Fits e doc
      → i < length doc
      → o.pos ≡ pos i
      → track e i ≡ some j
      → (shift o c).pos ≡ pos j
  unfolding shift
  shift-track o c (put p w) doc i j (t, at, len) f h oi tr =
      rw (t, at, oi, len) (ground (arith, add_int-pos i (length w)))
  shift-track o c (cut p n) doc i j (t, at, len) f h oi tr =
      rw (t, at, oi, len) (ground (arith, sub_int-pos i n))

  -- A sequence of concurrent operations, each inside the document that the ones before it leave.
  abbrev pub edit_all : List (Edit A) → List A → List A
  edit_all [] doc = doc
  edit_all (e ∷ es) doc = edit_all es (edit e doc)

  abbrev pub track_all : List (Edit A) → ℕ → Option ℕ
  track_all [] i = some i
  track_all (e ∷ es) i = track e i >>= track_all es

  abbrev pub AllRepresent : List Op → List (Edit A) → Type 0
  AllRepresent [] [] = Unit
  AllRepresent (c ∷ cs) (e ∷ es) = Represents c e × AllRepresent cs es
  AllRepresent _ _ = ⊥

  abbrev pub AllFit : List (Edit A) → List A → Type 0
  AllFit [] doc = Unit
  AllFit (e ∷ es) doc = Fits e doc × AllFit es (edit e doc)

  track-lt :
      (e : Edit A) (doc : List A) (i j : ℕ)
      → Fits e doc
      → i < length doc
      → track e i ≡ some j
      → j < length (edit e doc)
  track-lt (put p w) doc i j f h t = ground (arith, length-put_at p w doc)
  track-lt (cut p n) doc i j f h t = ground (arith, length-cut_at p n doc)

  -- An operation transformed against a list of concurrent ones goes with its unit: if the unit
  -- at its position survives them, the new position holds the same unit in the edited document,
  -- and is the index to which the edits move that unit.
  pub transform_op-track :
      (o : Op) (cs : List Op) (es : List (Edit A)) (doc : List A) (i j : ℕ)
      → AllRepresent cs es
      → AllFit es doc
      → i < length doc
      → o.pos ≡ pos i
      → track_all es i ≡ some j
      → ((transform_op cs o).pos ≡ pos j) × (get_elem? (edit_all es doc) j ≡ get_elem? doc i)
  unfolding transform_op
  transform_op-track o [] [] doc i j r f h oi t = ground arith
  transform_op-track o [] (e ∷ es) doc i j r f h oi t = absurd r
  transform_op-track o (c ∷ cs) [] doc i j r f h oi t = absurd r
  transform_op-track o (c ∷ cs) (e ∷ es) doc i j r f h oi t =
      let (m, q, u) = >>=-eq-some (track e i) (track_all es) t in
      let (at, same) =
        transform_op-track (shift o c) cs es (edit e doc) m j r.1 f.1 (track-lt e doc i m f.0 h q)
          (shift-track o c e doc i m r.0 f.0 h oi q) u in
      (at, same ∙ get_elem?-edit e doc i m h q)
