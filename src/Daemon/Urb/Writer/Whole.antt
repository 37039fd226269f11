-- ===== src/Daemon/Urb/Writer/Whole.antt =====
-- The stream of a session whose writes are not cut.
use usbipd_darwin.Common.{
  ℕ, List, [], ◌∷◌, ◌++◌, none, some, Bool, false, ◌≡◌, ◌≢◌, inl, inr, refl, ap, sym, subst, ◌∙◌,
  arith, All, All-append, append_assoc, append-nil, map, length, nat_eq, nat_beq_iff, ◌==◌,
  Bool-cases,
}
use usbipd_darwin.Common.Map
use usbipd_darwin.Host.Transfer.Calls.{Answers}
use usbipd_darwin.Host.Transfer.Bounds.{Counts}
use usbipd_darwin.Daemon.Urb.Client.{read_replies}
use usbipd_darwin.Daemon.Urb.Stream.{
  Handled, submitted, IsHandled, handled_bytes, stream, answer, read_replies-stream,
}
use usbipd_darwin.Daemon.Urb.Writer.{
  Job, waiting, written, stopped, writing, Wire, new, arrive, take_lock, push, release, fail,
  give_up, cut, Step, arrives, locks, pushes, releases, fails, gives_up, is_cut, Run, here,
  then_step,
}

module _ (nusb : Answers) (into : ℕ → Bool) where
  -- What is fine of a job: its reply, and of one that is being written, that it has the lock and that
  -- the bytes before its own are the replies that were written.
  abbrev JobFine : Wire → ℕ → Job → Type 0
  JobFine w id (waiting h) = IsHandled into h
  JobFine w id (written h) = Unit
  JobFine w id (stopped h) = Unit
  JobFine w id (writing h front rest) =
      IsHandled into h
      × (w.lock ≡ some id)
      × (front ++ rest ≡ handled_bytes nusb h)
      × (w.broken ≡ false → w.sent ≡ stream nusb w.log ++ front)

  record Inv (w : Wire) : Type 0 where
    idle : w.lock ≡ none → w.broken ≡ false → w.sent ≡ stream nusb w.log
    logged : All (IsHandled into) w.log
    fine : (id : ℕ) (j : Job) → Map.get id w.jobs ≡ some j → JobFine w id j

  stream-append :
      (a : List Handled) (h : Handled)
      → stream nusb (a ++ (h ∷ [])) ≡ stream nusb a ++ handled_bytes nusb h
  unfolding stream
  stream-append [] h = append-nil (handled_bytes nusb h)
  stream-append (x ∷ xs) h =
      ap (λ t. handled_bytes nusb x ++ t) (stream-append xs h)
      ∙ sym (append_assoc (handled_bytes nusb x) (stream nusb xs) (handled_bytes nusb h))

  -- A step of one job: what it leaves for the others.
  change-Inv :
      (v : Wire) (jobs : Map.Map ℕ Job) (id : ℕ) (j : Job)
      → v.jobs ≡ Map.insert id j jobs
      → (v.lock ≡ none → v.broken ≡ false → v.sent ≡ stream nusb v.log)
      → All (IsHandled into) v.log
      → JobFine v id j
      → ((k : ℕ) (i : Job) → k ≢ id → Map.get k jobs ≡ some i → JobFine v k i)
      → Inv v
  change-Inv v jobs id j same idle logged mine others = record {
    idle = idle;
    logged = logged;
    fine = λ k i at. elim (Bool-cases (id == k)) [
      | inl here_it_is ↦
          let one : j ≡ i =
            ground (arith, at, same, here_it_is, ap (Map.get k) same, Map.get-insert id k j jobs) in
          let key : id ≡ k = (nat_beq_iff id k).0 here_it_is in
          subst (λ i'. JobFine v k i') one (subst (λ k'. JobFine v k' j) key mine)
      | inr other ↦
          others k i (λ e. ground (arith, e, other, nat_beq_iff id k))
            (ground (arith, at, other, ap (Map.get k) same, Map.get-insert id k j jobs))
    ];
  }

  -- A job without the lock is not being written.
  other-JobFine : (w v : Wire) (k : ℕ) (i : Job) → JobFine w k i → w.lock ≢ some k → JobFine v k i
  other-JobFine w v k (waiting h) fine free = fine
  other-JobFine w v k (written h) fine free = tt
  other-JobFine w v k (stopped h) fine free = tt
  other-JobFine w v k (writing h front rest) fine free = absurd (free fine.1)

  -- The holder of the lock is the only one.
  holder-only : (w : Wire) (id k : ℕ) → w.lock ≡ some id → k ≢ id → w.lock ≢ some k
  holder-only w id k lock ne other = ground (arith, lock, ne, other)

  Step-Inv : {w v : Wire} → Step nusb into false w v → Inv w → Inv v
  unfolding arrive take_lock push release fail give_up cut
  Step-Inv (arrives w id h new_one fits) inv =
      change-Inv _ w.jobs id (waiting h) refl inv.idle inv.logged fits
        (λ k i ne at. inv.fine k i at)
  Step-Inv (locks w id h at free) inv =
      let fits : IsHandled into h = inv.fine id (waiting h) at in
      change-Inv _ w.jobs id (writing h [] (handled_bytes nusb h)) refl (λ l. absurd (ground arith))
        inv.logged (fits, refl, refl, λ b. inv.idle free b ∙ sym (append-nil (stream nusb w.log)))
        (λ k i ne there.
          other-JobFine w (take_lock id h (handled_bytes nusb h) w) k i (inv.fine k i there)
            (λ e. ground (arith, e, free)))
  Step-Inv (pushes w id h front chunk rest at whole) inv =
      let (fits, lock, bytes, sent) = inv.fine id (writing h front (chunk ++ rest)) at in
      change-Inv _ w.jobs id (writing h (front ++ chunk) rest) refl
        (λ l. absurd (ground (arith, l, lock))) inv.logged
        (
          fits,
          lock,
          append_assoc front chunk rest ∙ bytes,
          λ b. ap (λ t. t ++ chunk) (sent b) ∙ append_assoc (stream nusb w.log) front chunk,
        )
        (λ k i ne there.
          other-JobFine w (push id h front chunk rest w) k i (inv.fine k i there)
            (holder-only w id k lock ne))
  Step-Inv (releases w id h front at) inv =
      let (fits, lock, bytes, sent) = inv.fine id (writing h front []) at in
      change-Inv _ w.jobs id (written h) refl
        (λ l b.
          sent b
          ∙ ap (λ t. stream nusb w.log ++ t) (sym (append-nil front) ∙ bytes)
          ∙ sym (stream-append w.log h))
        (All-append (IsHandled into) w.log (h ∷ []) inv.logged (fits, tt)) tt
        (λ k i ne there.
          other-JobFine w (release id h w) k i (inv.fine k i there) (holder-only w id k lock ne))
  Step-Inv (fails w id h front rest at) inv =
      let (fits, lock, _, _) = inv.fine id (writing h front rest) at in
      change-Inv _ w.jobs id (stopped h) refl (λ l b. absurd (ground (arith, b))) inv.logged tt
        (λ k i ne there.
          other-JobFine w (fail id h w) k i (inv.fine k i there) (holder-only w id k lock ne))
  Step-Inv (gives_up w id s at) inv =
      change-Inv _ w.jobs id (stopped (submitted s)) refl inv.idle inv.logged tt
        (λ k i ne there. inv.fine k i there)
  Step-Inv (is_cut w id s front rest never at) inv = absurd (ground (arith, never))

  new-Inv : Inv new
  unfolding new stream Map.get
  new-Inv = record {
    idle = λ l b. refl;
    logged = tt;
    fine = λ id j at. absurd (ground (arith, at));
  }

  Run-Inv : {w v : Wire} → Run nusb into false w v → Inv w → Inv v
  Run-Inv here inv = inv
  Run-Inv (then_step r st) inv = Step-Inv st (Run-Inv r inv)

  -- Transfers and unlinks with fields of their widths, and a client that knows the direction of each
  -- transfer. In every interleaving of the writers of their replies in which no abort hits a write,
  -- while nobody is writing and no write has failed, where nusb hands over as many bytes as it counts:
  -- the stream is the replies that were written, one behind the other, whole, and the client reads
  -- exactly those.
  pub Run-read_replies :
      (w : Wire)
      → Run nusb into false new w
      → w.lock ≡ none
      → w.broken ≡ false
      → Counts nusb
      → (w.sent ≡ stream nusb w.log)
        × (read_replies into (length w.log) w.sent ≡ some (map (answer nusb) w.log, []))
  Run-read_replies w r free whole counts =
      let inv = Run-Inv r new-Inv in
      let sent = inv.idle free whole in
      let read = read_replies-stream nusb into w.log [] counts inv.logged in
      (
        sent,
        ap (read_replies into (length w.log)) (sent ∙ sym (append-nil (stream nusb w.log))) ∙ read,
      )
