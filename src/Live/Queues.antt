-- ===== src/Live/Queues.antt =====
-- The viewers' queues of src/okam_native/session.py: `_put_chunk`, and the end of a subscription.
use okam_ha_proxy.Prelude.{ℕ, List, [], ◌∷◌, ◌++◌, ltb, length, get_or, set, if◌then◌else◌}
use okam_ha_proxy.Live.State.{Chunk}

-- `queue.Queue(maxsize=32)`
abbrev pub max_queue : ℕ
max_queue = 32

-- `get_nowait()`, whose result is thrown away
abbrev pub behind_first : List Chunk → List Chunk
behind_first [] = []
behind_first (chunk ∷ chunks) = chunks

-- `_put_chunk`: a full queue loses its oldest entry.
unfoldable pub put_chunk : Chunk → List Chunk → List Chunk
put_chunk value chunks =
    if ltb (length chunks) max_queue
    then chunks ++ value ∷ []
    else behind_first chunks ++ value ∷ []

-- The same, in the queue that a reference names.
unfoldable pub put_into : Chunk → ℕ → List (List Chunk) → List (List Chunk)
unfolding put_chunk
put_into value reference queues =
    set queues reference (put_chunk value (get_or queues reference []))

-- What a reader that is not waiting takes: the oldest entry.
unfoldable pub next_chunk : List Chunk → List Chunk × List Chunk
next_chunk [] = ([], [])
next_chunk (chunk ∷ chunks) = (chunk ∷ [], chunks)
