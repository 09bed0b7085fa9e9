-- ===== src/Platform.antt =====
-- What the controller model calls and the repository does not hold: QEMU's DMA and MSI-X, and
-- GLib's file functions. `World` is all that they act on, the guest's memory and the host's files.
pub mod Memory
use Prim.Native.String.{String}
use openflash_controller_lab.Base.{
  ℕ, ◌+◌, ◌≤◌, ◌≡◌, ◌⊎◌, Bool, true, Option, some, List, length, AreBytes,
}

pub record Host : Type 1 where
  pub World : Type 0
  -- `pci_dma_read(pdev, addr, buf, len)`: the bytes that arrive in the buffer.
  pub dma_read : World → ℕ → ℕ → List ℕ
  -- `pci_dma_write(pdev, addr, buf, len)`.
  pub dma_write : World → ℕ → List ℕ → World
  -- Whether the range of addresses is ordinary guest memory.
  pub is_ram : ℕ → ℕ → Bool
  -- `g_file_set_contents`, `g_file_test(EXISTS)` and `g_file_get_contents`.
  pub file_set_contents : World → String → List ℕ → World × Bool
  pub file_exists : World → String → Bool
  pub file_get_contents : World → String → Option (List ℕ)
  pub msix_enabled : World → Bool
  pub msix_notify : World → ℕ → World

-- The documented behaviour that the theorems rely on.
pub record IsLawful (H : Host) : Type 0 where
  pub length-dma_read : (w : H.World) (a n : ℕ) → length (H.dma_read w a n) ≡ n
  pub dma_read-AreBytes : (w : H.World) (a n : ℕ) → AreBytes (H.dma_read w a n)
  -- Memory holds what was written to it last.
  pub dma_read-dma_write :
      (w : H.World) (a : ℕ) (bs : List ℕ)
      → AreBytes bs
      → H.is_ram a (length bs) ≡ true
      → H.dma_read (H.dma_write w a bs) a (length bs) ≡ bs
  -- A write leaves the memory outside its range alone.
  pub dma_read-dma_write_ne :
      (w : H.World) (a : ℕ) (bs : List ℕ) (b n : ℕ)
      → H.is_ram a (length bs) ≡ true
      → (a + length bs ≤ b) ⊎ (b + n ≤ a)
      → H.dma_read (H.dma_write w a bs) b n ≡ H.dma_read w b n
  pub dma_read-msix_notify :
      (w : H.World) (v a n : ℕ) → H.dma_read (H.msix_notify w v) a n ≡ H.dma_read w a n
  -- A file that was written successfully exists and holds the bytes.
  pub file_get-file_set :
      (w w' : H.World) (f : String) (bs : List ℕ)
      → H.file_set_contents w f bs ≡ (w', true)
      → (H.file_exists w' f ≡ true) × (H.file_get_contents w' f ≡ some bs)
