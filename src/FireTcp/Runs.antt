-- ===== src/FireTcp/Runs.antt =====
-- Runs of `CipherWrite::poll_write` and of `CipherRead::poll_read`, and two ends that are connected.
use cpxy.Base.{
  ℕ, ◌+◌, ◌≡◌, refl, sym, ◌∙◌, Option, List, [], ◌∷◌, ◌++◌, Bytes, length, take, arith, length-take,
}
use cpxy.Cipher.{Mask, apply_keystream}
use cpxy.Cipher.Keystream.{apply_keystream-append}
use cpxy.Cipher.Stream.{pending, ready, failed}
use cpxy.Cipher.Stream.Writes.{room, answer}
use cpxy.FireTcp.{CipherWrite, WriteCall, poll_write}
use cpxy.FireTcp.Layout.{layout}
use cpxy.FireTcp.Writes.{write_at, poll_write-Took}

module _ (initial establish : Mask) where
  abbrev add_write : Bytes → WriteCall → Bytes × Bytes → Bytes × Bytes
  add_write buf w (plain, wire) = elim w.result [
    | pending ↦ (plain, wire)
    | ready v ↦ (take v buf ++ plain, take v w.passed ++ wire)
    | failed ↦ ([], [])
  ]

  -- The bytes that the callers of `poll_write` were told are written, and those that the stream
  -- under it took, where that has room for some bytes at each call.
  unfoldable pub run_writes : List (Bytes × ℕ) → CipherWrite → Bytes × Bytes
  run_writes [] c = ([], [])
  run_writes ((buf, n) ∷ calls) c =
      let w = poll_write initial establish c (answer (room n)) buf in
      add_write buf w (run_writes calls w.next)

  add_write-ready :
      (buf : Bytes) (w : WriteCall) (v : ℕ) (rest : Bytes × Bytes)
      → w.result ≡ ready v
      → add_write buf w rest ≡ (take v buf ++ rest.0, take v w.passed ++ rest.1)
  add_write-ready buf w v rest h = rw h refl

  module _ (buf_len size : ℕ) (est : Option ℕ) where
    pub run_writes-layout :
        (calls : List (Bytes × ℕ)) (k : ℕ)
        → (let (plain, wire) = run_writes calls (write_at buf_len size est k) in
            wire ≡ apply_keystream (layout initial establish size est) k plain)
    unfolding run_writes
    run_writes-layout [] k = unfold apply_keystream in refl
    run_writes-layout ((buf, n) ∷ calls) k =
        let (v, r, l, t, e) = poll_write-Took initial establish buf_len size est k n buf in
        let rest = run_writes-layout calls (k + v) in
        let w = poll_write initial establish (write_at buf_len size est k) (answer (room n)) buf in
        let behind : k + length (take v buf) ≡ k + v = omega (arith, length-take v buf) in
        rw (add_write-ready buf w v (run_writes calls w.next) r, e, rest, t)
          (sym (
            apply_keystream-append (layout initial establish size est) k (take v buf)
              (run_writes calls (write_at buf_len size est (k + v))).0
            ∙ rw behind refl))
