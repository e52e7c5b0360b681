-- ===== src/Download/Parallel.antt =====
-- The threads of `Perform` of QClientFramework/Component/http_service_moudle/HttpRequest.cpp, which
-- write their chunks to one file. `write_callback` of HttpHelper.h holds the lock of the download, so
-- the blocks that the threads receive go to the file one after another, in any order of the threads.
use my_communication.Prelude.{ℕ, zero, suc, Bool, false, List, [], ◌∷◌, ◌==◌, if◌then◌else◌}
use my_communication.Download.{upto, ThreadChunk, FileReply, Writer, write_callback, split_file}

-- What the threads share, and the chunk of each.
pub record Downloading : Type 0 where
  pub chunks : ℕ → ThreadChunk
  pub is_cancel : Bool
  pub downloaded_size : ℕ
  pub file : ℕ → ℕ
  pub replies : ℕ → FileReply
  pub writes : ℕ

-- The chunk of the `i`-th thread; there is none behind the last.
abbrev pub chunk_of : List ThreadChunk → ℕ → ThreadChunk
chunk_of [] i = record { startidx = 0; endidx = upto 0 }
chunk_of (c ∷ cs) zero = c
chunk_of (c ∷ cs) (suc i) = chunk_of cs i

-- The state in which the threads start.
unfoldable pub start_threads : ℕ → ℕ → Bool → (ℕ → ℕ) → (ℕ → FileReply) → Downloading
start_threads size threads multi file replies = record {
  chunks = chunk_of (split_file size threads multi);
  is_cancel = false;
  downloaded_size = 0;
  file = file;
  replies = replies;
  writes = 0;
}

-- What `write_callback` sees through its `ThreadChunk`, and what it leaves.
abbrev pub writer_of : ℕ → Downloading → Writer
writer_of i s = record {
  chunk = s.chunks i;
  is_cancel = s.is_cancel;
  downloaded_size = s.downloaded_size;
  file = s.file;
  replies = s.replies;
  writes = s.writes;
}

abbrev pub leave : ℕ → Writer → Downloading → Downloading
leave i w s = record s {
  chunks = λ j. if i == j then w.chunk else s.chunks j;
  downloaded_size = w.downloaded_size;
  file = w.file;
  writes = w.writes;
}

-- The thread `i` receives a block.
unfoldable pub receive_block : ℕ → List ℕ → Downloading → Downloading
receive_block i block s = leave i (write_callback block (writer_of i s)).1 s

-- The blocks of all threads, in the order in which they come.
unfoldable pub receive_blocks : List (ℕ × List ℕ) → Downloading → Downloading
receive_blocks [] s = s
receive_blocks ((i, block) ∷ rest) s = receive_blocks rest (receive_block i block s)
