-- ===== src/Wasi/Counted/Runs.antt =====
-- No run of calls loses count of the ends of a pipe (apps/web/src/wasi-module.js).
use wasm_host.Prelude.{ℕ, ◌≡◌, refl, sym, ap, ◌∙◌, Option, none, some, is_some, List, arith}
use wasm_host.Prelude.Table.{get, set-IsUnique, count, count-set}
use wasm_host.Wasi.Descriptors.{
  Direction, read_end, write_end, Pipe, Kind, stdio, pipe, directory, regular, OpenFile, Tables,
  Runtime,
}
use wasm_host.Wasi.Tables
use wasm_host.Wasi.Calls.{Command, run}
use wasm_host.Wasi.Contents.{Contents, SamePipe}
use wasm_host.Wasi.Steps.{Step, uses, closes, moves, copies, replaces, opens_pipe, restricts}
use wasm_host.Wasi.Runs.{run_keeps}
use wasm_host.Wasi.Counted.{IsCounted, is_end, ends}
use wasm_host.Wasi.Counted.Steps.{
  close-IsCounted, moved-IsCounted, replaced-IsCounted, copied-IsCounted, piped-IsCounted, absent,
}

same-ends : (d : Direction) (o p : Option Pipe) → SamePipe o p → ends d p ≡ ends d o
unfolding ends
same-ends d none none s = refl
same-ends read_end (some q) (some q') s = s.0
same-ends write_end (some q) (some q') s = s.1
same-ends d none (some q) s = elim s [ ]
same-ends d (some q) none s = elim s [ ]

same_there : (o p : Option Pipe) → SamePipe o p → is_some p ≡ is_some o
same_there none none s = refl
same_there (some q) (some q') s = refl
same_there none (some q) s = elim s [ ]
same_there (some q) none s = elim s [ ]

used-IsCounted : (t u : Tables) → Contents t u → IsCounted t → IsCounted u
used-IsCounted t u c h = record {
  unique = rw c.open_files h.unique;
  counted = λ d p.
      ap (count (λ f. is_end d p f.kind)) c.open_files
      ∙ h.counted d p
      ∙ sym (same-ends d _ _ (c.pipes p));
  fresh = λ p le. absent _ _ (same_there _ _ (c.pipes p)) (h.fresh p (rw c.next_pipe at le));
}

rights-is_end :
    (d : Direction) (p base inheriting : ℕ) (f : OpenFile)
    → is_end d p (Tables.with_rights base inheriting f).kind ≡ is_end d p f.kind
unfolding Tables.with_rights is_end
rights-is_end d p base inheriting f = by_kind f.kind f.rights
  where
    by_kind :
        (k : Kind) (rights : ℕ)
        → is_end d p
            (Tables.with_rights base inheriting (record { kind = k; rights = rights })).kind
          ≡ is_end d p k
    by_kind (stdio n) rights = refl
    by_kind (pipe e q) rights = refl
    by_kind (directory g) rights = refl
    by_kind (regular g) rights = refl

restricted-IsCounted :
    (fd base inheriting : ℕ) (f : OpenFile) (t : Tables)
    → get fd t.open_files ≡ some f
    → IsCounted t
    → IsCounted (Tables.put_open_file fd (Tables.with_rights base inheriting f) t)
unfolding Tables.put_open_file
restricted-IsCounted fd base inheriting f t e h = record {
  unique = set-IsUnique fd _ t.open_files h.unique;
  counted = λ d p.
      let test = λ (f : OpenFile). is_end d p f.kind in
      let put =
        rw (e, rights-is_end d p base inheriting f) at
          (count-set test fd (Tables.with_rights base inheriting f) t.open_files) in
      omega (arith, put, h.counted d p);
  fresh = h.fresh;
}

pub Step-IsCounted : (t u : Tables) → Step t u → IsCounted t → IsCounted u
Step-IsCounted t u (uses t' u' c) h = used-IsCounted t u c h
Step-IsCounted t u (closes fd f t' e) h = close-IsCounted fd f t e h
Step-IsCounted t u (moves fd to f t' e other) h = moved-IsCounted fd to f t e other h
Step-IsCounted t u (copies fd flags f t' free may) h = copied-IsCounted fd flags f t free may h
Step-IsCounted t u (replaces to flags f t' may) h = replaced-IsCounted to flags f t may h
Step-IsCounted t u (opens_pipe read_fd write_fd t' free free' apart) h =
    piped-IsCounted read_fd write_fd t free free' apart h
Step-IsCounted t u (restricts fd base inheriting f t' e allowed) h =
    restricted-IsCounted fd base inheriting f t e h

-- From tables where every pipe counts the open descriptors of its two ends, with no descriptor
-- standing twice and no pipe at the next number, every run of calls leads to such tables again:
-- closing, renumbering and duplicating descriptors never loses or invents an end of a pipe.
pub run-IsCounted :
    (cs : List Command) (r : Runtime) → IsCounted r.tables → IsCounted (run cs r).tables
run-IsCounted cs r h = run_keeps IsCounted Step-IsCounted cs r h
