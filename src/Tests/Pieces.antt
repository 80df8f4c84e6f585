-- ===== src/Tests/Pieces.antt =====
-- The headers of a request in several pieces.
use osrv.Base.{ℕ, ◌≡◌, ◌≢◌, refl, [], ◌∷◌, ◌++◌, arith}
use osrv.Base.Bytes.{Bytes}
use osrv.Base.Text.{codes}
use osrv.Requests.{header_part, body_part, Client, clear_http_request}
use osrv.Requests.Lines.{header_line, process_line}
use osrv.Requests.Scan.{at_end, blank_line, split_line, skip_end, look_line, look}
use osrv.Requests.Turn.{
  stay, after_line, keep_partial, end_of_headers, read_look, read_lines, read_buffer,
}
use osrv.Requests.Wire.Crlf.{read_buffer-crlf}
use osrv.Requests.Wire.Pieces.{read_buffer-pieces}

abbrev nothing_left : ℕ → Bytes
nothing_left n = []

-- A connection with a header line and a part of the next one.
abbrev first_piece : Client
first_piece = record {
  part = header_part;
  line_buf = codes "Host: h\r\nAcc";
  headers = [];
  req = clear_http_request;
}

abbrev after_first : Client
after_first = record (header_line (codes "Host: h") first_piece) { line_buf = codes "Acc" }

read_first : read_buffer nothing_left first_piece ≡ stay after_first
unfolding read_buffer read_lines read_look look at_end blank_line split_line look_line skip_end
    after_line process_line header_line keep_partial
read_first = refl

header-ne-body : header_part ≢ body_part
header-ne-body e = cc

read_buffer-pieces_example :
    read_buffer nothing_left (record after_first { line_buf = codes "Accept: x\r\n" })
    ≡ read_buffer nothing_left (record first_piece { line_buf = codes "Host: h\r\nAccept: x\r\n" })
unfolding header_line
read_buffer-pieces_example =
    read_buffer-pieces nothing_left first_piece after_first (codes "ept: x\r\n") (omega arith)
      (omega arith) (omega arith) read_first header-ne-body

read_buffer-crlf_example :
    (read_buffer nothing_left (record first_piece { line_buf = codes "Host: h" ++ 13 ∷ [] })
      ≡ stay (record (header_line (codes "Host: h") first_piece) { line_buf = [] }))
    × (read_buffer nothing_left
          (record (header_line (codes "Host: h") first_piece) { line_buf = 10 ∷ codes "Accept: x" })
        ≡ end_of_headers nothing_left
            (codes "Accept: x")
            (header_line (codes "Host: h") first_piece))
read_buffer-crlf_example =
    read_buffer-crlf nothing_left (codes "Host: h") (codes "Accept: x") first_piece (omega arith)
      refl
