-- ===== src/Fat16/File/Content.antt =====
-- `fat16_read` (src/drivers/fat16.c) returns the bytes of the file from its position.
use mathlib.Core.List.{append-nil, append_assoc}
use native.Mathlib.Nat.{sub-zero, add-zero}
use harvac.Prelude.{
  ℕ, zero, suc, ◌+◌, ◌-◌, ◌*◌, ◌/◌, ◌%◌, ◌≤◌, ◌<◌, ◌≡◌, refl, sym, ◌∙◌, ap, Option, some, arith,
  List, [], ◌∷◌, ◌++◌, u16, u32, min, leb, ◌==◌, true, false, ◌||◌, Bytes, length, take, Bool-cases,
  inl, inr,
}
use harvac.Machine.{Machine, Sector, ◌>>=◌}
use harvac.Drivers.Disk.Transfer.{IsReady, sector}
use harvac.Fat16.Volume.{Fs, fat16_eof_min}
use harvac.Fat16.Volume.Buffer.{load}
use harvac.Fat16.Table.{fat_sector_lba}
use harvac.Fat16.Table.Entry.{entry, entry_sec_buf, sec_buf-IsReady, sector_sec_buf, read_fat_lem}
use harvac.Fat16.Table.Release.{Chain, link}
use harvac.Fat16.Iterate.Reader.{sector_of}
use harvac.Fat16.File.{File, read_loop, fat16_read, read_copy, read_chunk, moved, slice}
use harvac.Fat16.File.Stall.{read_copy_lem}

-- The table and the clusters that a machine without faults holds.
pub record View (fs : Fs) (m : Machine) (T : ℕ → ℕ) (S : ℕ → Bytes) : Type 0 where
  pub ready : IsReady m
  pub table : (c : ℕ) → entry fs m c ≡ T c
  pub clusters : (c : ℕ) → sector m fs.drive (sector_of fs c 0) ≡ S c

View-sec_buf :
    {fs : Fs} {m : Machine} {T : ℕ → ℕ} {S : ℕ → Bytes} (b : Sector)
    → View fs m T S
    → View fs (record m { sec_buf = b }) T S
View-sec_buf {fs} {m} b v = record {
  ready = sec_buf-IsReady b v.ready;
  table = λ c. rw entry_sec_buf (v.table c);
  clusters = λ c. sector_sec_buf m b fs.drive (sector_of fs c 0) ∙ v.clusters c;
}

-- The bytes of a list of clusters.
unfoldable pub content : (ℕ → Bytes) → List ℕ → List ℕ
content S [] = []
content S (c ∷ cs) = slice (S c) 0 512 ++ content S cs

-- What is left from a place in a cluster.
abbrev pub rest_of : (ℕ → Bytes) → File → List ℕ → List ℕ
rest_of S f cs = slice (S f.current_cluster) f.cluster_pos (512 - f.cluster_pos) ++ content S cs

take-slice :
    (k : ℕ) (b : Bytes) (o w n : ℕ) (xs : List ℕ)
    → k ≤ n
    → k ≤ w
    → take n (slice b o w ++ xs) ≡ slice b o k ++ take (n - k) (slice b (o + k) (w - k) ++ xs)
take-slice zero b o w n xs h l = rw (sub-zero, sub-zero, add-zero)
take-slice (suc k) b o zero n xs h l = absurd (omega arith)
take-slice (suc k) b o (suc w) zero xs h l = absurd (omega arith)
take-slice (suc k) b o (suc w) (suc n) xs h l =
    let e1 : o + suc k ≡ o + 1 + k = omega arith in
    let e2 : suc n - suc k ≡ n - k = omega arith in
    let e3 : suc w - suc k ≡ w - k = omega arith in
    rw (e1, e2, e3)
      (ap (λ (l : List ℕ). b o ∷ l) (take-slice k b (o + 1) w n xs (omega arith) (omega arith)))

-- A run from `f` that copies the bytes that are wanted and are there.
record Reads (S : ℕ → Bytes) (f : File) (cs : List ℕ) (count : ℕ) (out : List ℕ) (m : Machine)
    (run : Option ((List ℕ × File) × Machine)) : Type 0 where
  file : File
  buffer : Sector
  result :
      run
      ≡ some (
        (out ++ take (min count (f.file_size - f.position)) (rest_of S f cs), file),
        record m { sec_buf = buffer },
      )
  advanced : file.position ≡ f.position + min count (f.file_size - f.position)

Chain-inv :
    {T : ℕ → ℕ} {c d : ℕ} {cs : List ℕ}
    → Chain T c (d ∷ cs)
    → (2 ≤ c) × (c < fat16_eof_min) × (c ≡ d) × Chain T (T c) cs
Chain-inv (link p q t) = (p, q, refl, t)

Reads-run :
    {S : ℕ → Bytes} {f : File} {cs : List ℕ} {count : ℕ} {out : List ℕ} {m : Machine}
    {run run' : Option ((List ℕ × File) × Machine)}
    → run ≡ run'
    → Reads S f cs count out m run'
    → Reads S f cs count out m run
Reads-run e r = record {
  file = r.file;
  buffer = r.buffer;
  result = e ∙ r.result;
  advanced = r.advanced;
}

stop-Reads :
    {S : ℕ → Bytes} (fuel : ℕ) (f : File) (cs : List ℕ) (count : ℕ) (out : List ℕ) (m : Machine)
    → (count == 0 || leb f.file_size f.position) ≡ true
    → Reads S f cs count out m (read_loop (suc fuel) f count out m)
unfolding read_loop
stop-Reads {S} fuel f cs count out m stop =
    let nothing : min count (f.file_size - f.position) ≡ 0 = ground arith in
    record {
      file = f;
      buffer = m.sec_buf;
      result = rw (stop, nothing, append-nil);
      advanced = ground arith;
    }

inside_round :
    (fuel : ℕ) (f : File) (count : ℕ) (out : List ℕ) (m : Machine)
    → f.fs.bytes_per_sector ≡ 512
    → f.fs.sectors_per_cluster ≡ 1
    → (count == 0 || leb f.file_size f.position) ≡ false
    → leb 512 f.cluster_pos ≡ false
    → read_loop (suc fuel) f count out m ≡ read_copy (read_loop fuel) f count out m
unfolding read_loop
inside_round fuel f count out m hb hc go inside =
    let e : u16 (f.fs.sectors_per_cluster * f.fs.bytes_per_sector) ≡ 512 = rw (hb, hc) refl in
    rw (go, e, inside)

module _ (T : ℕ → ℕ) (S : ℕ → Bytes) where
  -- A round inside a cluster, before rounds that read.
  copy-Reads :
      (fuel : ℕ) (f : File) (cs : List ℕ) (count : ℕ) (out : List ℕ) {m : Machine}
      → View (f.fs) m T S
      → f.fs.bytes_per_sector ≡ 512
      → 2 ≤ f.current_cluster
      → f.cluster_pos < 512
      → f.position < f.file_size
      → f.file_size < 4294967296
      → f.file_size - f.position < 65536
      → let k = read_chunk f count in
        ((m' : Machine)
          → View (f.fs) m' T S
          → Reads S
              (moved f k)
              cs
              (count - k)
              (out ++ slice (S f.current_cluster) f.cluster_pos k)
              m'
              (read_loop fuel
                (moved f k)
                (count - k)
                (out ++ slice (S f.current_cluster) f.cluster_pos k)
                m'))
        → Reads S f cs count out m (read_copy (read_loop fuel) f count out m)
  copy-Reads fuel f cs count out {m} v hb hk hq hp hs hr next = record {
    file = r.file;
    buffer = r.buffer;
    result =
        start
        ∙ r.result
        ∙ ap (λ (xs : List ℕ). some ((xs, r.file), record m { sec_buf = r.buffer })) bytes;
    advanced = omega (arith, r.advanced);
  }
    where
      k : ℕ
      k = read_chunk f count

      in_place : f.cluster_pos % 512 ≡ f.cluster_pos
      in_place = omega arith

      first : u16 (f.cluster_pos / 512) ≡ 0
      first = omega arith

      b : Bytes
      b = sector m f.fs.drive (sector_of f.fs f.current_cluster 0)

      r :
          Reads S
            (moved f k)
            cs
            (count - k)
            (out ++ slice (S f.current_cluster) f.cluster_pos k)
            (record m { sec_buf = b })
            (read_loop fuel
              (moved f k)
              (count - k)
              (out ++ slice (S f.current_cluster) f.cluster_pos k)
              (record m { sec_buf = b }))
      r = next (record m { sec_buf = b }) (View-sec_buf b v)

      start :
          read_copy (read_loop fuel) f count out m
          ≡ read_loop fuel
              (moved f k)
              (count - k)
              (out ++ slice (S f.current_cluster) f.cluster_pos k)
              (record m { sec_buf = b })
      start =
          read_copy_lem (read_loop fuel) f count out v.ready hk
          ∙ rw (first, in_place, v.clusters f.current_cluster)

      n : ℕ
      n = min count (f.file_size - f.position)

      left : min (count - k) (f.file_size - u32 (f.position + k)) ≡ n - k
      left = omega arith

      place : u32 (f.cluster_pos + k) ≡ f.cluster_pos + k
      place = omega arith

      width : 512 - (f.cluster_pos + k) ≡ 512 - f.cluster_pos - k
      width = omega arith

      bytes :
          (out ++ slice (S f.current_cluster) f.cluster_pos k)
            ++ take
                (min (count - k) (f.file_size - u32 (f.position + k)))
                (rest_of S (moved f k) cs)
          ≡ out ++ take n (rest_of S f cs)
      bytes =
          append_assoc out _ _
          ∙ ap (λ (xs : List ℕ). out ++ xs)
              (rw (left, place, width)
                (sym (
                  take-slice k (S f.current_cluster) f.cluster_pos (512 - f.cluster_pos) n
                    (content S cs) (omega arith) (omega arith))))

  -- The round at the end of a cluster goes on in the next one.
  edge_round :
      (fuel : ℕ) (f : File) (count : ℕ) (out : List ℕ) (m : Machine)
      → View (f.fs) m T S
      → f.fs.bytes_per_sector ≡ 512
      → f.fs.sectors_per_cluster ≡ 1
      → f.cluster_pos ≡ 512
      → 0 < count
      → f.position < f.file_size
      → T f.current_cluster < fat16_eof_min
      → read_loop (suc fuel) f count out m
        ≡ read_copy
            (read_loop fuel)
            (record f { current_cluster = T f.current_cluster; cluster_pos = 0 })
            count
            out
            (load m f.fs.drive (fat_sector_lba f.fs f.current_cluster))
  unfolding read_loop
  edge_round fuel f count out m v hb hc hq h0 hp q =
      let go : (count == 0 || leb f.file_size f.position) ≡ false = ground arith in
      let e : u16 (f.fs.sectors_per_cluster * f.fs.bytes_per_sector) ≡ 512 = rw (hb, hc) refl in
      let edge : leb 512 f.cluster_pos ≡ true = ground arith in
      let onward : leb fat16_eof_min (T f.current_cluster) ≡ false = ground arith in
      rw (go, e, edge)
        (rw (read_fat_lem f.fs v.ready f.current_cluster, ◌>>=◌)
          (rw (v.table f.current_cluster, onward)))

  -- What the rounds with some fuel do.
  abbrev RoundsRead : ℕ → Type 0
  RoundsRead fuel =
      (f : File) (cs : List ℕ) (count : ℕ) (out : List ℕ) (m : Machine)
      → View (f.fs) m T S
      → f.fs.bytes_per_sector ≡ 512
      → f.fs.sectors_per_cluster ≡ 1
      → Chain T f.current_cluster (f.current_cluster ∷ cs)
      → f.cluster_pos ≤ 512
      → f.file_size < 4294967296
      → f.file_size - f.position < 65536
      → f.file_size - f.position ≤ 512 - f.cluster_pos + 512 * length cs
      → count < fuel
      → Reads S f cs count out m (read_loop fuel f count out m)

  inside-Reads :
      (fuel : ℕ)
      → RoundsRead fuel
      → (f : File) (cs : List ℕ) (count : ℕ) (out : List ℕ) (m : Machine) → View (f.fs) m T S
      → f.fs.bytes_per_sector ≡ 512
      → f.fs.sectors_per_cluster ≡ 1
      → Chain T f.current_cluster (f.current_cluster ∷ cs)
      → f.cluster_pos < 512
      → f.file_size < 4294967296
      → f.file_size - f.position < 65536
      → f.file_size - f.position ≤ 512 - f.cluster_pos + 512 * length cs
      → count < suc fuel
      → 0 < count
      → f.position < f.file_size
      → Reads S f cs count out m (read_copy (read_loop fuel) f count out m)
  inside-Reads fuel again f cs count out m v hb hc t hq hs hr hl h h0 hp =
      copy-Reads fuel f cs count out v hb (Chain-inv t).0 hq hp hs hr (λ m' v'.
        again (moved f (read_chunk f count)) cs (count - read_chunk f count) _ m' v' hb hc t
          (omega arith) hs (omega arith) (omega arith) (omega arith))

  edge-Reads :
      (fuel : ℕ)
      → RoundsRead fuel
      → (f : File) (cs : List ℕ) (count : ℕ) (out : List ℕ) (m : Machine) → View (f.fs) m T S
      → f.fs.bytes_per_sector ≡ 512
      → f.fs.sectors_per_cluster ≡ 1
      → Chain T f.current_cluster (f.current_cluster ∷ cs)
      → f.cluster_pos ≡ 512
      → f.file_size < 4294967296
      → f.file_size - f.position < 65536
      → f.file_size - f.position ≤ 512 - f.cluster_pos + 512 * length cs
      → count < suc fuel
      → 0 < count
      → f.position < f.file_size
      → Reads S f cs count out m (read_loop (suc fuel) f count out m)
  unfolding content
  edge-Reads fuel again f [] count out m v hb hc t hq hs hr hl h h0 hp = absurd (omega arith)
  edge-Reads fuel again f (c ∷ cs) count out m v hb hc t hq hs hr hl h h0 hp =
      let (_, _, _, t1) = Chain-inv t in
      let (p, q, e, t2) = Chain-inv t1 in
      let b = sector m f.fs.drive (fat_sector_lba f.fs f.current_cluster) in
      let g : File = record f { current_cluster = T f.current_cluster; cluster_pos = 0 } in
      let r =
        inside-Reads fuel again g cs count out (record m { sec_buf = b }) (View-sec_buf b v) hb hc
          (link p q t2) (omega arith) hs hr (omega arith) h h0 hp in
      let bytes : rest_of S g cs ≡ rest_of S f (c ∷ cs) = rw (hq, e) refl in
      Reads-run (edge_round fuel f count out m v hb hc hq h0 hp q) (record {
        file = r.file;
        buffer = r.buffer;
        result =
            r.result
            ∙ ap
                (λ (xs : List ℕ). some (
                  (out ++ take (min count (f.file_size - f.position)) xs, r.file),
                  record m { sec_buf = r.buffer },
                ))
                bytes;
        advanced = r.advanced;
      })

  read_loop_reads : (fuel : ℕ) → RoundsRead fuel
  read_loop_reads zero f cs count out m v hb hc t hq hs hr hl h = elim h [ ]
  read_loop_reads (suc fuel) f cs count out m v hb hc t hq hs hr hl h =
      elim (Bool-cases (count == 0 || leb f.file_size f.position)) [
        | inl stop ↦ stop-Reads fuel f cs count out m stop
        | inr go ↦ elim (Bool-cases (leb 512 f.cluster_pos)) [
          | inl edge ↦
              edge-Reads fuel (read_loop_reads fuel) f cs count out m v hb hc t (ground arith) hs hr
                hl h (ground arith) (ground arith)
          | inr inside ↦ Reads-run (inside_round fuel f count out m hb hc go inside) (
              inside-Reads fuel (read_loop_reads fuel) f cs count out m v hb hc t (ground arith) hs
                hr hl h (ground arith) (ground arith))
        ]
      ]

-- On a disk without faults, for sectors of 512 bytes and clusters of one sector, a read with more
-- fuel than wanted bytes returns the bytes that the chain of the file holds from the position, as
-- many as are wanted and as the file has, moves the position by their number, and changes only the
-- buffer. The file is at a place of its chain, which holds all that is left of it, fewer than
-- 65536 bytes.
pub fat16_read_content :
    (T : ℕ → ℕ) (S : ℕ → Bytes) (fuel : ℕ) (f : File) (cs : List ℕ) (count : ℕ) (m : Machine)
    → View (f.fs) m T S
    → f.fs.bytes_per_sector ≡ 512
    → f.fs.sectors_per_cluster ≡ 1
    → Chain T f.current_cluster (f.current_cluster ∷ cs)
    → f.cluster_pos ≤ 512
    → f.file_size < 4294967296
    → f.file_size - f.position < 65536
    → f.file_size - f.position ≤ 512 - f.cluster_pos + 512 * length cs
    → count < fuel
    → (f' : File) × (b : Sector) × (fat16_read fuel f count m
        ≡ some (
          (take (min count (f.file_size - f.position)) (rest_of S f cs), f'),
          record m { sec_buf = b },
        ))
      × (f'.position ≡ f.position + min count (f.file_size - f.position))
unfolding fat16_read
fat16_read_content T S fuel f cs count m v hb hc t hq hs hr hl h =
    let r = read_loop_reads T S fuel f cs count [] m v hb hc t hq hs hr hl h in
    (r.file, r.buffer, r.result, r.advanced)
