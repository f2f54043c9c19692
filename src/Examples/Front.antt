-- ===== src/Examples/Front.antt =====
-- Encodings that can be read off the front of some bytes: numbers, pairs and lists, which have their
-- length in front.
use mathlib.Core.List.{append_assoc, append-nil}
use raft_etcd.Common.{
  ℕ, zero, suc, ◌≡◌, refl, true, List, [], ◌∷◌, ◌++◌, Option, none, some, length,
}
use raft_etcd.Codec.{Codec, Packing}

-- An encoding that can be read off the front of some bytes.
pub record Front (A : Type 0) : Type 0 where
  pub write : A → List ℕ
  pub read : List ℕ → Option (A × List ℕ)
  pub read-write : (a : A) (rest : List ℕ) → read (write a ++ rest) ≡ some (a, rest)

abbrev pub chain : {A B : Type 0} → Option A → (A → Option B) → Option B
chain none f = none
chain (some a) f = f a

abbrev pub read_number : List ℕ → Option (ℕ × List ℕ)
read_number [] = none
read_number (n ∷ s) = some (n, s)

abbrev pub number : Front ℕ
number = record { write = λ n. n ∷ []; read = read_number; read-write = λ n rest. refl }

module _ {A B : Type 0} where
  abbrev pub both : Front A → Front B → Front (A × B)
  both P Q = record {
    write = λ x. P.write x.0 ++ Q.write x.1;
    read = λ s. chain (P.read s) λ x. chain (Q.read x.1) λ y. some ((x.0, y.0), y.1);
    read-write = λ x rest.
        rw
          (
            append_assoc (P.write x.0) (Q.write x.1) rest,
            P.read-write x.0 (Q.write x.1 ++ rest),
            Q.read-write x.1 rest,
          )
          refl;
  }

  abbrev pub via : (f : B → A) (g : A → B) → ((b : B) → g (f b) ≡ b) → Front A → Front B
  via f g e P = record {
    write = λ b. P.write (f b);
    read = λ s. chain (P.read s) λ x. some (g x.0, x.1);
    read-write = λ b rest. rw (P.read-write (f b) rest, e b) refl;
  }

module _ {A : Type 0} where
  abbrev pub write_all : Front A → List A → List ℕ
  write_all P [] = []
  write_all P (a ∷ as') = P.write a ++ write_all P as'

  abbrev pub read_all : Front A → ℕ → List ℕ → Option (List A × List ℕ)
  read_all P zero s = some ([], s)
  read_all P (suc n) s = chain (P.read s) λ x. chain (read_all P n x.1) λ y. some (x.0 ∷ y.0, y.1)

  pub read_all-write_all :
      (P : Front A) (xs : List A) (rest : List ℕ)
      → read_all P (length xs) (write_all P xs ++ rest) ≡ some (xs, rest)
  read_all-write_all P [] rest = refl
  read_all-write_all P (a ∷ xs) rest =
      rw
        (
          append_assoc (P.write a) (write_all P xs) rest,
          P.read-write a (write_all P xs ++ rest),
          read_all-write_all P xs rest,
        )
        refl

  abbrev pub list_read : Front A → List ℕ → Option (List A × List ℕ)
  list_read P [] = none
  list_read P (n ∷ s) = read_all P n s

  abbrev pub list : Front A → Front (List A)
  list P = record {
    write = λ xs. length xs ∷ write_all P xs;
    read = list_read P;
    read-write = read_all-write_all P;
  }

  abbrev pub codec : Front A → Codec A
  codec P = record {
    pack = P.write;
    unpack = λ s. chain (P.read s) λ x. some x.0;
    is_msgpack = λ s. true;
    unpack-pack = λ a. rw (← (append-nil (P.write a)), P.read-write a []) refl;
    is_msgpack-pack = λ a. refl;
  }

-- The encoding of some of the fields.
module _ {A B : Type 0} where
  abbrev pub packing :
      (kept : A → A) (f : A → B) (g : B → A) → ((a : A) → g (f a) ≡ kept a) → Front B → Packing kept
  packing kept f g e P = record {
    pack = λ a. P.write (f a);
    unpack = λ s. chain (P.read s) λ x. some (g x.0);
    is_msgpack = λ s. true;
    unpack-pack = λ a. rw (← (append-nil (P.write (f a))), P.read-write (f a) [], e a) refl;
    is_msgpack-pack = λ a. refl;
  }

abbrev pub bytes : Front (List ℕ)
bytes = list number
