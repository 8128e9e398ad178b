-- ===== src/FireTcp.antt =====
-- src/protocol/firetcp/cipher: `CipherRead` and `CipherWrite`, which encrypt the first bytes of a
-- connection with one cipher and the others with a second one, if there is one. `initial` and
-- `establish` are the keystreams; a cipher is its position in one of them.
pub mod Layout
pub mod Writes
pub mod Reads
pub mod Runs
pub mod Connected
use cpxy.Base.{
  ℕ, ◌+◌, ◌-◌, ltb, ◌==◌, min, max, Option, none, some, Bytes, [], ◌∷◌, length, take, drop,
  if◌then◌else◌, Result, ok, err, message,
}
use cpxy.Cipher.{Mask, apply_keystream}
use cpxy.Cipher.Stream.{Poll, pending, ready, failed}

-- `ReadState` and `WriteState`.
pub data State : Type 0 where
  init : (bytes_left cipher : ℕ) → State
  established : (cipher : Option ℕ) → State

pub record CipherWrite : Type 0 where
  pub buf_len : ℕ
  pub establish_cipher : Option ℕ
  pub state : State

pub record CipherRead : Type 0 where
  pub establish_cipher : Option ℕ
  pub state : State

unfoldable pub new_write : ℕ → ℕ → CipherWrite
new_write initial_size initial_cipher = record {
  buf_len = max initial_size 512;
  establish_cipher = none;
  state = init initial_size initial_cipher;
}

unfoldable pub new_read : ℕ → ℕ → CipherRead
new_read initial_size initial_cipher = record {
  establish_cipher = none;
  state = init initial_size initial_cipher;
}

unfoldable pub set_write_cipher : Option ℕ → CipherWrite → Result CipherWrite
set_write_cipher cipher c = elim c.state [
  | established d ↦ err (message "Connection already established, too late for cipher change")
  | init bytes_left d ↦ ok (record c { establish_cipher = cipher })
]

unfoldable pub set_read_cipher : Option ℕ → CipherRead → Result CipherRead
set_read_cipher cipher c = elim c.state [
  | established d ↦ err (message "Connection already established, too late for cipher change")
  | init bytes_left d ↦ ok (record c { establish_cipher = cipher })
]

-- What a call returns, what it passed to the stream under it, and the next state.
pub record WriteCall : Type 0 where
  pub result : Poll
  pub passed : Bytes
  pub next : CipherWrite

-- `rewind`, by what was passed but not taken; the position is at least that.
abbrev pub rewound_to : ℕ → ℕ → ℕ → ℕ
rewound_to p buf_to_write bytes_written =
    if ltb bytes_written buf_to_write then p - (buf_to_write - bytes_written) else p

-- `bytes_left` is used up or not.
unfoldable pub init_written : CipherWrite → ℕ → ℕ → CipherWrite
init_written c bytes_left cipher =
    if bytes_left == 0
    then record {
      buf_len = c.buf_len;
      establish_cipher = none;
      state = established c.establish_cipher;
    }
    else record c { state = init bytes_left cipher }

-- Where the stream under it is pending or fails, the cipher stays behind what was passed.
unfoldable pub init_answered : CipherWrite → ℕ → ℕ → Bytes → Poll → WriteCall
init_answered c bytes_left cipher passed (ready v) = record {
  result = ready v;
  passed = passed;
  next = init_written c (bytes_left - v) (rewound_to (cipher + length passed) (length passed) v);
}
init_answered c bytes_left cipher passed r = record {
  result = r;
  passed = passed;
  next = record c { state = init bytes_left (cipher + length passed) };
}

unfoldable pub established_answered : CipherWrite → ℕ → Bytes → Poll → WriteCall
established_answered c cipher passed (ready v) = record {
  result = ready v;
  passed = passed;
  next = record c {
    state = established (some (rewound_to (cipher + length passed) (length passed) v));
  };
}
established_answered c cipher passed r = record {
  result = r;
  passed = passed;
  next = record c { state = established (some (cipher + length passed)) };
}

unfoldable pub init_read : CipherRead → ℕ → ℕ → CipherRead
init_read c bytes_left cipher =
    if bytes_left == 0
    then record { establish_cipher = none; state = established c.establish_cipher }
    else record c { state = init bytes_left cipher }

-- The most bytes that the stream under it is asked for.
unfoldable pub asked : State → ℕ → ℕ
asked (init bytes_left cipher) len = min len bytes_left
asked (established cipher) len = len

module _ (initial establish : Mask) where
  unfoldable pub write_in : CipherWrite → (Bytes → Poll) → Bytes → State → WriteCall
  write_in c w buf (init bytes_left cipher) =
      let output = apply_keystream initial cipher (take (min (length buf) bytes_left) buf) in
      init_answered c bytes_left cipher output (w output)
  write_in c w buf (established (some cipher)) =
      let output = apply_keystream establish cipher (take (min (length buf) c.buf_len) buf) in
      established_answered c cipher output (w output)
  write_in c w buf (established none) = record { result = w buf; passed = buf; next = c }

  -- `CipherWrite::poll_write`; `w` is the answer of the stream under it.
  unfoldable pub poll_write : CipherWrite → (Bytes → Poll) → Bytes → WriteCall
  poll_write c w [] = record { result = ready 0; passed = []; next = c }
  poll_write c w (b ∷ buf) = write_in c w (b ∷ buf) c.state

  unfoldable pub read_in : CipherRead → Bytes → State → Bytes × CipherRead
  read_in c data_read (init bytes_left cipher) = (
    apply_keystream initial cipher data_read,
    init_read c (bytes_left - length data_read) (cipher + length data_read),
  )
  read_in c data_read (established (some cipher)) = (
    apply_keystream establish cipher data_read,
    record c { state = established (some (cipher + length data_read)) },
  )
  read_in c data_read (established none) = (data_read, c)

  -- `CipherRead::poll_read` into a buffer of `len` bytes, where the stream under it has `size`
  -- bytes of `input` ready: what is read, what is left of `input`, and the next state. A stream that
  -- is pending or fails changes no state.
  unfoldable pub poll_read : CipherRead → ℕ → ℕ → Bytes → Bytes × Bytes × CipherRead
  poll_read c len size input =
      if len == 0
      then ([], input, c)
      else (let taken = min size (asked c.state len) in
          let (out, next) = read_in c (take taken input) c.state in (out, drop taken input, next))
