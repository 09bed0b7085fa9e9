-- ===== src/Platform/Memory.antt =====
-- A host whose guest memory is a function and whose only file is one slot: it meets the laws.
use Prim.Native.String.{String}
use text.Mathlib.Text.{◌==◌ as str_eq}
use text.Mathlib.TextPositions.{eq_refl}
use openflash_controller_lab.Base.{
  ℕ, zero, suc, ◌+◌, ◌%◌, ◌≤◌, ◌<◌, ◌≡◌, refl, ◌⊎◌, inl, inr, ap, ap₂, subst, Bool, true, false,
  Option, none, some, List, [], ◌∷◌, length, if◌then◌else◌, ltb, arith, u64, leb, get_or, ◌-◌, ◌&&◌,
  AreBytes,
}
use openflash_controller_lab.Platform.{Host, IsLawful}

pub record World : Type 0 where
  pub memory : ℕ → ℕ
  pub file : Option (String × List ℕ)
  pub enabled : Bool
  pub notified : List ℕ

abbrev pub read_from : (ℕ → ℕ) → ℕ → ℕ → List ℕ
read_from m a zero = []
read_from m a (suc n) = (m a % 256) ∷ read_from m (a + 1) n

abbrev pub write_at : (ℕ → ℕ) → ℕ → List ℕ → ℕ → ℕ
write_at m a bs i = if leb a i && ltb i (a + length bs) then get_or bs (i - a) 0 else m i

abbrev pub contents_of : String → Option (String × List ℕ) → Option (List ℕ)
contents_of f none = none
contents_of f (some (g, bs)) = if str_eq f g then some bs else none

abbrev pub is_some : Option (List ℕ) → Bool
is_some none = false
is_some (some bs) = true

abbrev pub memory_host : Host
memory_host = record {
  World = World;
  dma_read = λ w a n. read_from w.memory a n;
  dma_write = λ w a bs. record w { memory = write_at w.memory a bs };
  is_ram = λ a n. leb (a + n) u64;
  file_set_contents = λ w f bs. (record w { file = some (f, bs) }, true);
  file_exists = λ w f. is_some (contents_of f w.file);
  file_get_contents = λ w f. contents_of f w.file;
  msix_enabled = λ w. w.enabled;
  msix_notify = λ w v. record w { notified = v ∷ w.notified };
}

length-read_from : (m : ℕ → ℕ) (a n : ℕ) → length (read_from m a n) ≡ n
length-read_from m a zero = refl
length-read_from m a (suc n) = ap suc (length-read_from m (a + 1) n)

read_from-AreBytes : (m : ℕ → ℕ) (a n : ℕ) → AreBytes (read_from m a n)
read_from-AreBytes m a zero = tt
read_from-AreBytes m a (suc n) = (omega arith, read_from-AreBytes m (a + 1) n)

-- Reading depends on the bytes of the range only.
read_from-congr :
    (m m' : ℕ → ℕ) (a n : ℕ)
    → ((i : ℕ) → a ≤ i → i < a + n → m i % 256 ≡ m' i % 256)
    → read_from m a n ≡ read_from m' a n
read_from-congr m m' a zero h = refl
read_from-congr m m' a (suc n) h =
    ap₂ ◌∷◌ (h a (omega arith) (omega arith))
      (read_from-congr m m' (a + 1) n (λ i p q. h i (omega arith) (omega arith)))

read_from-get_or :
    (m : ℕ → ℕ) (a : ℕ) (bs : List ℕ)
    → AreBytes bs
    → ((k : ℕ) → k < length bs → m (a + k) ≡ get_or bs k 0)
    → read_from m a (length bs) ≡ bs
read_from-get_or m a [] ok h = refl
read_from-get_or m a (b ∷ bs) ok h = ap₂ ◌∷◌ head (
    read_from-get_or m (a + 1) bs ok.1
      (λ k p. subst (λ x. m x ≡ get_or bs k 0) (omega arith) (h (suc k) (omega arith))))
  where
    head : m a % 256 ≡ b
    head =
        let e : a + 0 ≡ a = omega arith in omega (arith, subst (λ x. m x ≡ b) e (h 0 (omega arith)))

write_at_in :
    (m : ℕ → ℕ) (a : ℕ) (bs : List ℕ) (k : ℕ)
    → k < length bs
    → write_at m a bs (a + k) ≡ get_or bs k 0
write_at_in m a bs k p = let e : a + k - a ≡ k = omega arith in rw e (ground arith)

write_at_out :
    (m : ℕ → ℕ) (a : ℕ) (bs : List ℕ) (i : ℕ)
    → (i < a) ⊎ (a + length bs ≤ i)
    → write_at m a bs i ≡ m i
write_at_out m a bs i h = ground arith

pub memory_host-IsLawful : IsLawful memory_host
memory_host-IsLawful = record {
  length-dma_read = λ w a n. length-read_from w.memory a n;
  dma_read-AreBytes = λ w a n. read_from-AreBytes w.memory a n;
  dma_read-dma_write = λ w a bs ok r.
      read_from-get_or (write_at w.memory a bs) a bs ok (λ k p. write_at_in w.memory a bs k p);
  dma_read-dma_write_ne = λ w a bs b n r h.
      read_from-congr (write_at w.memory a bs) w.memory b n
        (λ i p q. ap (λ x. x % 256) (write_at_out w.memory a bs i (outside a bs b n i h p q)));
  dma_read-msix_notify = λ w v a n. refl;
  file_get-file_set = λ w w' f bs e. file_set w w' f bs e;
}
  where
    outside :
        (a : ℕ) (bs : List ℕ) (b n i : ℕ)
        → (a + length bs ≤ b) ⊎ (b + n ≤ a)
        → b ≤ i
        → i < b + n
        → (i < a) ⊎ (a + length bs ≤ i)
    outside a bs b n i (inl h) p q = inr (omega arith)
    outside a bs b n i (inr h) p q = inl (omega arith)

    file_set :
        (w w' : World) (f : String) (bs : List ℕ)
        → memory_host.file_set_contents w f bs ≡ (w', true)
        → (memory_host.file_exists w' f ≡ true) × (memory_host.file_get_contents w' f ≡ some bs)
    file_set w w' f bs e = rw (← ap (λ (x : World × Bool). x.0) e, eq_refl f) (refl, refl)
