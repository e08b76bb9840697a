-- ===== src/Proxy/Copying.antt =====
-- netHTTPBody, copyBuffer and maxLatencyWriter's callers in whttp/proxy.go: how a body is copied.
pub mod Whole
use wgo.Common.{
  ℕ, zero, suc, ◌+◌, ◌%◌, ◌^◌, Bool, true, false, not, Option, none, some, List, [], ◌∷◌, ◌++◌,
  Bytes, ◌==◌, if◌then◌else◌, length, take, drop,
}

pub data ReadError (E : Type 0) : Type 0 where
  eof : ReadError E
  read_failed : E → ReadError E

pub data CopyError (E : Type 0) : Type 0 where
  read_error : E → CopyError E
  write_error : E → CopyError E
  short_write : CopyError E

-- `netHTTPBody.Read` into a buffer of `size` bytes: the bytes read, the error, the body left.
unfoldable pub body_read : {E : Type 0} → ℕ → Bytes → Bytes × Option (ReadError E) × Bytes
body_read size [] = ([], some eof, [])
body_read size (b ∷ bs) = (take size (b ∷ bs), none, drop size (b ∷ bs))

-- `netHTTPBody.Close`
unfoldable pub body_close : Bytes → Bytes
body_close b = []

abbrev pub buffer_size : ℕ → ℕ
buffer_size n = if n == 0 then 32768 else n

-- `if rerr == io.EOF { rerr = nil }`
abbrev pub end_of : {E : Type 0} → ReadError E → Option (CopyError E)
end_of eof = none
end_of (read_failed e) = some (read_error e)

-- The count so far, an error that ends the copy, and the writer, behind a write of `n` bytes.
unfoldable pub check_part : {E W : Type 0} → ℕ → ℕ → ℕ × Option E × W → ℕ × Option (CopyError E) × W
check_part written n (nw, some e, w) = ((written + nw) % 2 ^ 64, some (write_error e), w)
check_part written n (nw, none, w) =
    ((written + nw) % 2 ^ 64, if n == nw then none else some short_write, w)

-- What a round of the loop does with the bytes that it read.
unfoldable pub write_part :
    {E W : Type 0} → (Bytes → W → ℕ × Option E × W) → ℕ → Bytes → W → ℕ × Option (CopyError E) × W
write_part write written [] w = (written, none, w)
write_part write written (b ∷ bs) w = check_part written (length (b ∷ bs)) (write (b ∷ bs) w)

-- How a round ends: with an error of the write, with one of the read, or with the next round.
unfoldable pub end_round :
    {E S W : Type 0}
    → ℕ × Option (CopyError E) × W
    → Option (ReadError E)
    → S
    → Option (ℕ × Option (CopyError E) × S × W)
    → Option (ℕ × Option (CopyError E) × S × W)
end_round (written, some e, w) rerr s next = some (written, some e, s, w)
end_round (written, none, w) (some e) s next = some (written, end_of e, s, w)
end_round (written, none, w) none s next = next

module _ {E S W : Type 0} (read : ℕ → S → Bytes × Option (ReadError E) × S)
    (write : Bytes → W → ℕ × Option E × W) where
  -- `copyBuffer` behind its first lines; out of fuel it is none.
  unfoldable pub copy_from : ℕ → ℕ → ℕ → S → W → Option (ℕ × Option (CopyError E) × S × W)
  copy_from zero size written s w = none
  copy_from (suc fuel) size written s w =
      let (bs, rerr, s') = read size s in
      let part = write_part write written bs w in
      end_round part rerr s' (copy_from fuel size part.0 s' part.2)

  -- `copyBuffer` with a buffer of `n` bytes, which gets a buffer of its own for an empty one.
  unfoldable pub copy_buffer : ℕ → ℕ → S → W → Option (ℕ × Option (CopyError E) × S × W)
  copy_buffer fuel n s w = copy_from fuel (buffer_size n) 0 s w
