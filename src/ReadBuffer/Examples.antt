-- ===== src/ReadBuffer/Examples.antt =====
-- The theorems of the prefetch buffer on a socket whose peer has sent some bytes.
use msg.Prelude.{
  ℕ, ◌≤◌, ◌≡◌, ◌∙◌, sym, ap, arith, List, [], ◌∷◌, ◌++◌, length, take, drop, min, take-append-drop,
  length-take,
}
use msg.ReadBuffer.{SysRead, ReadReturn, got, again, error}

-- A socket is the bytes to come; every call gets three of them at most.
abbrev pub threes : ℕ → List ℕ → ReadReturn × List ℕ
threes n s = (got (take (min n 3) s), drop (min n 3) s)

pub threes_some :
    (n : ℕ) (s bs : List ℕ) → (threes n s).0 ≡ got bs → (length bs ≤ n) × (s ≡ bs ++ (threes n s).1)
threes_some n s bs e =
    let same : take (min n 3) s ≡ bs = cc in
    (
      rw (sym same) (omega (arith, length-take (min n 3) s)),
      sym (take-append-drop (min n 3) s) ∙ ap (λ t. t ++ drop (min n 3) s) same,
    )

pub threes-again : (n : ℕ) (s : List ℕ) → (threes n s).0 ≡ again → (threes n s).1 ≡ s
threes-again n s e = absurd (cc)

pub threes_error : (n : ℕ) (s : List ℕ) → (threes n s).0 ≡ error → (threes n s).1 ≡ s
threes_error n s e = absurd (cc)

abbrev pub peer : SysRead
peer = record {
  Socket = List ℕ;
  stream = λ s. s;
  read = threes;
  read_some = threes_some;
  read_again = threes-again;
  read_error = threes_error;
}

abbrev incoming : List ℕ
incoming = 1 ∷ (2 ∷ (3 ∷ (4 ∷ (5 ∷ (6 ∷ (7 ∷ (8 ∷ [])))))))
