-- ===== src/Cache/Prefix/Entries.antt =====
-- The ordered dictionary of edgerag/cache/prefix.py as a list: what a move to the end changes.
use edgerag.Prelude.{
  List, ℕ, ◌++◌, ◌≡◌, ap, [], none, some, arith, ◌≤◌, ◌+◌, if◌then◌else◌, refl, length, Bool-cases,
  length-append, ◌==◌, inl, inr, ◌∙◌, false, sym,
}
use edgerag.Cache.Prefix.{Entry, find_entry, remove_entry, move_to_end, ◌∷◌, ◌++◌}
use edgerag.Prelude.Counting.{occ, eq_mark, occ-cons, occ-nil, occ-append, eq_mark_self}

abbrev pub keys : List Entry → List ℕ
keys [] = []
keys (e ∷ es) = e.key ∷ keys es

abbrev pub entry_blocks : List Entry → List ℕ
entry_blocks [] = []
entry_blocks (e ∷ es) = e.block ∷ entry_blocks es

pub keys-append : (xs ys : List Entry) → keys (xs ++ ys) ≡ keys xs ++ keys ys
keys-append [] ys = refl
keys-append (x ∷ xs) ys = ap (◌∷◌ x.key) (keys-append xs ys)

pub entry_blocks-append :
    (xs ys : List Entry) → entry_blocks (xs ++ ys) ≡ entry_blocks xs ++ entry_blocks ys
entry_blocks-append [] ys = refl
entry_blocks-append (x ∷ xs) ys = ap (◌∷◌ x.block) (entry_blocks-append xs ys)

pub find_entry-none : (h : ℕ) (es : List Entry) → find_entry h es ≡ none → occ h (keys es) ≡ 0
find_entry-none h [] e = omega (arith, occ-nil h)
find_entry-none h (x ∷ es) e = elim (Bool-cases (x.key == h)) [
  | inl same ↦ absurd (cc (rw same at e))
  | inr other ↦ ground (arith, find_entry-none h es (rw other at e), occ-cons h x.key (keys es))
]

find_entry-absent : (h : ℕ) (es : List Entry) → occ h (keys es) ≡ 0 → find_entry h es ≡ none
find_entry-absent h [] z = refl
find_entry-absent h (x ∷ es) z =
    let rest = find_entry-absent h es (omega (arith, occ-cons h x.key (keys es))) in
    ground (arith, rest, occ-cons h x.key (keys es))

-- The entry that the search finds is one of them, and it is the one that is taken out.
pub remove_entry-counts :
    (h b c k : ℕ) (es : List Entry)
    → find_entry h es ≡ some b
    → (occ c (entry_blocks es) ≡ eq_mark b c + occ c (entry_blocks (remove_entry h es)))
      × (occ k (keys es) ≡ eq_mark h k + occ k (keys (remove_entry h es)))
      × (length es ≡ length (remove_entry h es) + 1)
remove_entry-counts h b c k [] e = absurd (cc e)
remove_entry-counts h b c k (x ∷ es) e = elim (Bool-cases (x.key == h)) [
  | inl same ↦
      let key : x.key ≡ h = ground arith in
      let block : x.block ≡ b = cc (rw same at e) in
      rw same (
        omega (arith, occ-cons c x.block (entry_blocks es), ap (λ y. eq_mark y c) block),
        omega (arith, occ-cons k x.key (keys es), ap (λ y. eq_mark y k) key),
        omega arith,
      )
  | inr other ↦
      let (blocks, names, long) = remove_entry-counts h b c k es (rw other at e) in
      rw other (
        omega (
          arith,
          blocks,
          occ-cons c x.block (entry_blocks es),
          occ-cons c x.block (entry_blocks (remove_entry h es)),
        ),
        omega
            (arith, names, occ-cons k x.key (keys es), occ-cons k x.key (keys (remove_entry h es))),
        omega (arith, long),
      )
]

pub snoc-counts :
    (h b c k : ℕ) (es : List Entry)
    → (occ c (entry_blocks (es ++ record { key = h; block = b } ∷ []))
        ≡ occ c (entry_blocks es) + eq_mark b c)
      × (occ k (keys (es ++ record { key = h; block = b } ∷ [])) ≡ occ k (keys es) + eq_mark h k)
snoc-counts h b c k es =
    let last : List Entry = record { key = h; block = b } ∷ [] in
    (
      omega (
        arith,
        ap (occ c) (entry_blocks-append es last),
        occ-append c (entry_blocks es) (b ∷ []),
        occ-cons c b [],
        occ-nil c,
      ),
      omega (
        arith,
        ap (occ k) (keys-append es last),
        occ-append k (keys es) (h ∷ []),
        occ-cons k h [],
        occ-nil k,
      ),
    )

pub move_to_end-counts :
    (h b c k : ℕ) (es : List Entry)
    → find_entry h es ≡ some b
    → (occ c (entry_blocks (move_to_end h b es)) ≡ occ c (entry_blocks es))
      × (occ k (keys (move_to_end h b es)) ≡ occ k (keys es))
      × (length (move_to_end h b es) ≡ length es)
move_to_end-counts h b c k es e =
    let (blocks, names, long) = remove_entry-counts h b c k es e in
    let (blocks', names') = snoc-counts h b c k (remove_entry h es) in
    (
      omega (arith, blocks, blocks'),
      omega (arith, names, names'),
      omega (arith, long, length-append (remove_entry h es) (record { key = h; block = b } ∷ [])),
    )

pub find_entry-snoc :
    (h b k : ℕ) (es : List Entry)
    → find_entry h es ≡ none
    → find_entry k (es ++ record { key = h; block = b } ∷ [])
      ≡ (if h == k then some b else find_entry k es)
find_entry-snoc h b k [] e = refl
find_entry-snoc h b k (x ∷ es) e = elim (Bool-cases (x.key == h)) [
  | inl same ↦ absurd (cc (rw same at e))
  | inr other ↦
      let rest = find_entry-snoc h b k es (rw other at e) in
      elim (Bool-cases (x.key == k)) [
        | inl here ↦ let apart : h == k ≡ false = ground arith in rw here (rw apart refl)
        | inr there ↦ rw there rest
      ]
]

-- A move to the end changes no entry: every search finds what it found before.
pub find_entry-move_to_end :
    (h b k : ℕ) (es : List Entry)
    → find_entry h es ≡ some b
    → occ h (keys es) ≤ 1
    → find_entry k (move_to_end h b es) ≡ find_entry k es
find_entry-move_to_end h b k [] e once = absurd (cc e)
find_entry-move_to_end h b k (x ∷ es) e once = elim (Bool-cases (x.key == h)) [
  | inl same ↦
      let key : x.key ≡ h = ground arith in
      let block : x.block ≡ b = cc (rw same at e) in
      let gone : find_entry h es ≡ none = find_entry-absent h es (
        omega
          (arith, once, occ-cons h x.key (keys es), ap (λ y. eq_mark y h) key, eq_mark_self h)) in
      rw same (
        find_entry-snoc h b k es gone
        ∙ ap (λ y. if y == k then some b else find_entry k es) (sym key)
        ∙ ap (λ c. if x.key == k then some c else find_entry k es) (sym block))
  | inr other ↦
      let rest =
        find_entry-move_to_end h b k es (rw other at e)
          (omega (arith, once, occ-cons h x.key (keys es))) in
      rw other (rw rest refl)
]
