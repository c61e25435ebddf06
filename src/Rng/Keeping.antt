-- ===== src/Rng/Keeping.antt =====
-- What the single steps of rng.rs leave alone: the queue itself.
use visor.Prelude.{
  ℕ, zero, suc, ◌+◌, ◌*◌, ◌≡◌, refl, List, ok, err, length, ltb, leb, ◌==◌, if◌then◌else◌, if_both,
  subst, take, drop, bit_and,
}
use visor.Prelude.Bytes.{from_le_bytes}
use visor.Memory.{read_bytes, write_bytes}
use visor.Virtio.{VirtQueue}
use visor.Rng.{
  RngError, VirtqDesc, Work, Outcome, and_then, from_address, read_from, write_to, read_exact,
  read_desc, fill_desc, fill_from, fill_chain, max_bytes_per_request,
}

-- No error of the model.
unfoldable pub IsOfSource : RngError → Type 0
IsOfSource RngError.read_entropy = Unit
IsOfSource RngError.cycle = Unit
IsOfSource (RngError.memory_error e) = Unit
IsOfSource (RngError.invalid_descriptor idx size) = Unit
IsOfSource RngError.out_of_fuel = ⊥

unfoldable pub Keeps : {A : Type 0} → VirtQueue → Outcome A → Type 0
Keeps q (w, ok a) = w.queue ≡ q
Keeps q (w, err e) = (w.queue ≡ q) × IsOfSource e

-- What holds of every end holds behind a step that keeps the queue.
pub step :
    {A B : Type 0} (P : Outcome B → Type 0) (q : VirtQueue) (o : Outcome A)
    (next : A → Work → Outcome B)
    → Keeps q o
    → ((v : Work) (e : RngError) → v.queue ≡ q → IsOfSource e → P (v, err e))
    → ((a : A) (v : Work) → v.queue ≡ q → P (next a v))
    → P (and_then o next)
unfolding Keeps and_then
step P q (w, ok a) next k h g = g a w k
step P q (w, err e) next k h g = h w e k.0 k.1

then-Keeps :
    {A B : Type 0} (q : VirtQueue) (o : Outcome A) (next : A → Work → Outcome B)
    → Keeps q o
    → ((a : A) (v : Work) → v.queue ≡ q → Keeps q (next a v))
    → Keeps q (and_then o next)
unfolding Keeps
then-Keeps q o next k g = step (Keeps q) q o next k (λ v e same s. (same, s)) g

pub read_from-Keeps : (addr len : ℕ) (w : Work) → Keeps w.queue (read_from addr len w)
unfolding Keeps read_from IsOfSource
read_from-Keeps addr len w =
    elim (read_bytes w.memory addr len)
      as (λ r.
        Keeps w.queue
          (elim r [ ok bytes ↦ (w, ok bytes) | err e ↦ (w, err (RngError.memory_error e)) ])) [
            | ok bytes ↦ refl
            | err e ↦ (refl, tt)
          ]

pub write_to-Keeps : (addr : ℕ) (bytes : List ℕ) (w : Work) → Keeps w.queue (write_to addr bytes w)
unfolding Keeps write_to IsOfSource
write_to-Keeps addr bytes w =
    elim (write_bytes w.memory addr bytes)
      as (λ r. Keeps w.queue (elim r [
        | ok m ↦ (record w { memory = m }, ok tt)
        | err e ↦ (w, err (RngError.memory_error e))
      ])) [ ok m ↦ refl | err e ↦ (refl, tt) ]

read_exact-Keeps : (len : ℕ) (w : Work) → Keeps w.queue (read_exact len w)
unfolding Keeps read_exact IsOfSource
read_exact-Keeps len w = if_both (Keeps w.queue) (leb len (length w.entropy)) refl (refl, tt)

read_desc-Keeps : (idx : ℕ) (w : Work) → Keeps w.queue (read_desc idx w)
unfolding Keeps read_desc IsOfSource
read_desc-Keeps idx w =
    if_both (Keeps w.queue) (ltb idx w.queue.size)
      (then-Keeps w.queue (read_from (from_address w.queue.desc_table_addr (idx * 16)) 16 w)
        (λ bytes v. (
          v,
          ok (record {
            addr = from_le_bytes (take 8 bytes);
            len = from_le_bytes (take 4 (drop 8 bytes));
            flags = from_le_bytes (take 2 (drop 12 bytes));
            next = from_le_bytes (drop 14 bytes);
          }),
        ))
        (read_from-Keeps (from_address w.queue.desc_table_addr (idx * 16)) 16 w)
        (λ bytes v same. same))
      (refl, tt)

pub at_queue :
    {A : Type 0} (q : VirtQueue) (v : Work) (o : Outcome A)
    → v.queue ≡ q
    → Keeps v.queue o
    → Keeps q o
at_queue q v o same k = subst (λ p. Keeps p o) same k

fill_desc-Keeps : (desc : VirtqDesc) (w : Work) → Keeps w.queue (fill_desc desc w)
unfolding Keeps fill_desc IsOfSource
fill_desc-Keeps desc w =
    let len = if ltb desc.len max_bytes_per_request then desc.len else max_bytes_per_request in
    if_both (Keeps w.queue) (bit_and desc.flags 2 == 0) refl (
      then-Keeps w.queue (read_exact len w)
        (λ buf v. and_then (write_to desc.addr buf v) (λ done u. (u, ok len)))
        (read_exact-Keeps len w)
        (λ buf v same.
          (then-Keeps w.queue (write_to desc.addr buf v) (λ done u. (u, ok len))
            (at_queue w.queue v (write_to desc.addr buf v) same (write_to-Keeps desc.addr buf v))
            (λ done u kept. kept))))

fill_from-Keeps : (left idx total : ℕ) (w : Work) → Keeps w.queue (fill_from left idx total w)
unfolding Keeps fill_from IsOfSource
fill_from-Keeps zero idx total w =
    then-Keeps w.queue (read_desc idx w) (λ desc v. (v, err RngError.cycle)) (read_desc-Keeps idx w)
      (λ desc v same. (same, tt))
fill_from-Keeps (suc left) idx total w =
    then-Keeps w.queue (read_desc idx w)
      (λ desc v. and_then (fill_desc desc v) (λ n u.
        if bit_and desc.flags 1 == 0
        then (u, ok (total + n))
        else fill_from left desc.next (total + n) u))
      (read_desc-Keeps idx w)
      (λ desc v same.
        (then-Keeps w.queue (fill_desc desc v)
          (λ n u.
            if bit_and desc.flags 1 == 0
            then (u, ok (total + n))
            else fill_from left desc.next (total + n) u)
          (at_queue w.queue v (fill_desc desc v) same (fill_desc-Keeps desc v))
          (λ n u kept.
            (if_both (Keeps w.queue) (bit_and desc.flags 1 == 0) kept (
              at_queue w.queue u (fill_from left desc.next (total + n) u) kept
                (fill_from-Keeps left desc.next (total + n) u))))))

pub chain-Keeps : (head_idx : ℕ) (w : Work) → Keeps w.queue (fill_chain head_idx w)
unfolding fill_chain
chain-Keeps head_idx w = fill_from-Keeps w.queue.size head_idx 0 w
