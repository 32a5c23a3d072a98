-- ===== src/RingBuffer/Blocking.antt =====
-- The blocking write: across every wait, no byte is lost, repeated or reordered.
use salern_os_kernel.Prelude.{
  ℕ, zero, suc, ◌+◌, ◌-◌, ◌≤◌, ◌<◌, ◌≡◌, ◌≢◌, ◌∙◌, ap, sym, subst, refl, List, [], ◌∷◌, ◌++◌, ltb,
  ◌==◌, min, arith, Bool, true, inl, inr, Bool-cases, append-nil, append_assoc,
}
use salern_os_kernel.Errno.{success, eintr}
use salern_os_kernel.Mem.{Memory}
use salern_os_kernel.RingBuffer.{
  Ring, Op, op_write, Hangup, notify_readers, returns_early, avail_write, put_bytes, announce, Wake,
  Reply, Outcome, done, asleep, panic, out_of_fuel, Wait, ready, leave, forever, wait_space,
  write_round, write_blocking,
}
use salern_os_kernel.RingBuffer.Queue.{IsValid, span, contents, span-append}
use salern_os_kernel.RingBuffer.Write.{put_lem}

-- What was in the ring, `before`, has partly been consumed by readers, and the rest is there.
pub record Flow (k : ℕ) (before : List ℕ) (after : Ring) : Type 0 where
  pub valid : IsValid k after
  pub consumed : List ℕ
  pub rest : before ≡ consumed ++ contents after

-- The others, while the writer sleeps, only read.
pub record OnlyReads (k : ℕ) (w : Wake) : Type 0 where
  pub reads : (r : Ring) → IsValid k r → Flow k (contents r) (w.others r)

abbrev pub AllOnlyRead : ℕ → List Wake → Type 0
AllOnlyRead k [] = Unit
AllOnlyRead k (w ∷ ws) = OnlyReads k w × AllOnlyRead k ws

Flow-refl : {k : ℕ} (r : Ring) → IsValid k r → Flow k (contents r) r
Flow-refl r v = record { valid = v; consumed = []; rest = refl }

Flow-trans :
    {k : ℕ} (before : List ℕ) (mid after : Ring)
    → Flow k before mid
    → Flow k (contents mid) after
    → Flow k before after
Flow-trans before mid after f g = record {
  valid = g.valid;
  consumed = f.consumed ++ g.consumed;
  rest = rw (f.rest, g.rest) (sym (append_assoc f.consumed g.consumed (contents after)));
}

Flow-nil :
    {k : ℕ} (before : List ℕ) (after : Ring) → Flow k before after → Flow k (before ++ []) after
Flow-nil {k} before after f = subst (λ l. Flow k l after) (sym (append-nil before)) f

-- New bytes join behind those that wait.
Flow-extend :
    {k : ℕ} (before new more : List ℕ) (mid put after : Ring)
    → Flow k before mid
    → contents put ≡ contents mid ++ new
    → Flow k (contents put ++ more) after
    → Flow k (before ++ (new ++ more)) after
Flow-extend before new more mid put after f e g = record {
  valid = g.valid;
  consumed = f.consumed ++ g.consumed;
  rest =
      ap (λ l. l ++ (new ++ more)) f.rest
      ∙ append_assoc f.consumed (contents mid) (new ++ more)
      ∙ ap (λ l. f.consumed ++ l)
          (sym (append_assoc (contents mid) new more) ∙ ap (λ l. l ++ more) (sym e) ∙ g.rest)
      ∙ sym (append_assoc f.consumed g.consumed (contents after));
}

module _ (check_hangup : Ring → Op → ℕ → Hangup) (has_callback : Bool) (src : Memory) where
  -- How a call that has sent `sent` of `buflen` bytes in all may return.
  pub data Ending (buflen sent : ℕ) (reply : Reply) : Type 0 where
    complete : reply.ret ≡ success → reply.count ≡ sent → sent ≡ buflen → Ending buflen sent reply
    interrupted : reply.ret ≡ success → reply.count ≡ sent → sent ≢ 0 → Ending buflen sent reply
    refused : reply.ret ≡ eintr → reply.count ≡ 0 → sent ≡ 0 → Ending buflen sent reply
    hung_up :
        returns_early (check_hangup reply.ring op_write 0) ≡ true
        → reply.ret ≡ (check_hangup reply.ring op_write 0).ret
        → Ending buflen sent reply

  -- What the inner loop may come to, with `written` bytes sent.
  abbrev Waited : (k buflen atomic_size written : ℕ) → List ℕ → Wait → Type 0
  Waited k buflen atomic_size written before (ready ws r) =
      Flow k before r × AllOnlyRead k ws × (atomic_size ≤ avail_write r)
  Waited k buflen atomic_size written before (leave reply) =
      Flow k before reply.ring × Ending buflen written reply
  Waited k buflen atomic_size written before (forever r) =
      Flow k before r × (avail_write r < atomic_size)

  wait_space-Waited :
      {k : ℕ} (buflen atomic_size written : ℕ) (ws : List Wake) (before : List ℕ) (r : Ring)
      → AllOnlyRead k ws
      → Flow k before r
      → Waited k buflen atomic_size written before
          (wait_space check_hangup has_callback buflen atomic_size written ws r)
  unfolding wait_space
  wait_space-Waited buflen atomic_size written [] before r all f =
      elim (Bool-cases (ltb (avail_write r) atomic_size)) [
        | inl few ↦ rw few (f, ground arith)
        | inr room ↦ rw room (f, tt, ground arith)
      ]
  wait_space-Waited {k} buflen atomic_size written (w ∷ ws) before r all f =
      elim (Bool-cases (ltb (avail_write r) atomic_size)) [
        | inr room ↦ rw room (f, all, ground arith)
        | inl few ↦ rw few (elim (Bool-cases w.signal) [
          | inl signal ↦ rw signal (elim (Bool-cases (written == 0)) [
            | inl first ↦ rw first (g, refused refl refl (ground arith))
            | inr later ↦ rw later (g, interrupted refl refl (ground arith))
          ])
          | inr quiet ↦
              rw quiet (elim (Bool-cases (returns_early (check_hangup (w.others r) op_write 0))) [
                | inl early ↦ rw early (g, hung_up early refl)
                | inr on ↦
                    rw on
                      (wait_space-Waited buflen atomic_size written ws before (w.others r) all.1 g)
              ])
        ])
      ]
    where
      g : Flow k before (w.others r)
      g = Flow-trans before r (w.others r) f (all.0.reads r f.valid)

  -- What the whole call may come to, from `written` bytes on.
  abbrev pub Sent : (k buflen atomic_size written : ℕ) → List ℕ → Outcome Reply → Type 0
  Sent k buflen atomic_size written before (done reply) =
      (sent : ℕ) × Flow k (before ++ span src written sent) reply.ring
      × Ending buflen (written + sent) reply
  Sent k buflen atomic_size written before (asleep r) =
      (sent : ℕ) × Flow k (before ++ span src written sent) r
      × (written + sent < buflen)
      × (avail_write r < atomic_size)
  Sent k buflen atomic_size written before panic = ⊥
  Sent k buflen atomic_size written before out_of_fuel = ⊥

  -- What a later round sends comes behind what this round has sent.
  Sent-extend :
      {k : ℕ} (buflen atomic_size written n : ℕ) (before : List ℕ) (mid put : Ring)
      → Flow k before mid
      → contents put ≡ contents mid ++ span src written n
      → (o : Outcome Reply) → Sent k buflen atomic_size (written + n) (contents put) o
      → Sent k buflen atomic_size written before o
  Sent-extend {k} buflen atomic_size written n before mid put f e (done reply) (sent, g, ending) = (
    n + sent,
    subst (λ l. Flow k (before ++ l) reply.ring)
        (sym (span-append src written (written + n) n sent (n + sent) refl refl))
        (Flow-extend before (span src written n) (span src (written + n) sent) mid put reply.ring f
          e g),
    subst (λ m. Ending buflen m reply) (omega arith) ending,
  )
  Sent-extend {k} buflen atomic_size written n before mid put f e (asleep r) (sent, g, lt, few) = (
    n + sent,
    subst (λ l. Flow k (before ++ l) r)
        (sym (span-append src written (written + n) n sent (n + sent) refl refl))
        (Flow-extend before (span src written n) (span src (written + n) sent) mid put r f e g),
    omega arith,
    few,
  )
  Sent-extend buflen atomic_size written n before mid put f e panic h = h
  Sent-extend buflen atomic_size written n before mid put f e out_of_fuel h = h

  write_round-Sent :
      {k : ℕ} (again : ℕ → List Wake → Ring → Outcome Reply) (buflen atomic_size written : ℕ)
      (before : List ℕ) (w : Wait)
      → Waited k buflen atomic_size written before w
      → 0 < atomic_size
      → written < buflen
      → ((n : ℕ) (ws : List Wake) (r : Ring)
          → IsValid k r
          → AllOnlyRead k ws
          → written < n
          → n ≤ buflen
          → Sent k buflen atomic_size n (contents r) (again n ws r))
      → Sent k buflen atomic_size written before
          (write_round check_hangup has_callback again src buflen written w)
  unfolding write_round
  write_round-Sent again buflen atomic_size written before (leave reply) h pos lt ih =
      (0, Flow-nil before reply.ring h.0, subst (λ n. Ending buflen n reply) (omega arith) h.1)
  write_round-Sent again buflen atomic_size written before (forever r) h pos lt ih =
      (0, Flow-nil before r h.0, omega arith, h.1)
  write_round-Sent {k} again buflen atomic_size written before (ready ws r) h pos lt ih =
      let n = min (buflen - written) (avail_write r) in
      let r' = announce notify_readers has_callback (put_bytes src written n r) in
      let (valid, all) =
        put_lem notify_readers has_callback src written n r h.0.valid (omega arith) in
      Sent-extend buflen atomic_size written n before r r' h.0 all (again (written + n) ws r')
        (ih (written + n) ws r' valid h.1 (omega arith) (omega arith))

  -- One byte at least goes out in each round, so fuel for the bytes that are left is enough. The
  -- others may only read. Then the call returns, or sleeps with bytes still to send; what it sent
  -- joined the queue in order, and what has left the queue was its front.
  pub write_blocking_lem :
      {k : ℕ} (fuel buflen atomic_size written : ℕ) (ws : List Wake) (r : Ring)
      → IsValid k r
      → AllOnlyRead k ws
      → 0 < atomic_size
      → written ≤ buflen
      → buflen < fuel + written
      → Sent k buflen atomic_size written
          (contents r)
          (write_blocking check_hangup has_callback fuel src buflen atomic_size written ws r)
  unfolding write_blocking
  write_blocking_lem zero buflen atomic_size written ws r v all pos le enough = absurd (omega arith)
  write_blocking_lem {k} (suc fuel) buflen atomic_size written ws r v all pos le enough =
      elim (Bool-cases (ltb written buflen)) [
        | inr over ↦
            rw over (
              0,
              Flow-nil (contents r) r (Flow-refl r v),
              complete refl (omega arith) (ground arith),
            )
        | inl more ↦ rw more (elim (Bool-cases (returns_early (check_hangup r op_write 0))) [
          | inl early ↦ rw early (0, Flow-nil (contents r) r (Flow-refl r v), hung_up early refl)
          | inr on ↦ rw on (
              write_round-Sent
                (write_blocking check_hangup has_callback fuel src buflen atomic_size) buflen
                atomic_size written (contents r)
                (wait_space check_hangup has_callback buflen atomic_size written ws r)
                (wait_space-Waited buflen atomic_size written ws (contents r) r all (Flow-refl r v))
                pos (ground arith)
                (λ n ws' r' v' all' lo hi.
                  write_blocking_lem fuel buflen atomic_size n ws' r' v' all' pos hi (omega arith)))
        ])
      ]
