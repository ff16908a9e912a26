-- ===== src/Get/Serve.antt =====
-- src/get.c: `init_get` from the answer of open(2) on, and `get_dir`.
use boa.Common.{
  ℕ, ◌+◌, ◌-◌, ◌*◌, ◌%◌, ◌^◌, min, Bool, true, false, not, Option, none, some, [], ◌∷◌, ◌++◌, ltb,
  leb, ◌==◌, if◌then◌else◌, length, take, drop, Bytes, codes,
}
use boa.Status.{ioshuffle, HttpVersion, http11, Retval}
use boa.Alias.{last_byte}
use boa.Buffer.{Written, buffer_size, reset_output_buffer}
use boa.Range.{RangeState, range_pool_pop, ranges_fixup, ulong_max}
use boa.Response.{Server, is_head, complete_response}
use boa.Response.Files.{send_r_request_ok, send_r_no_content, send_r_partial_content}
use boa.Response.Replies.{
  send_r_moved_perm, send_r_not_modified, send_r_bad_request, send_r_forbidden, send_r_not_found,
  send_r_invalid_range, send_r_error,
}
use boa.FileSend.{FileSend, current, advance, completed}
use boa.Get.{
  max_path_length, regular, directory, special, FileStat, Errno, enoent, eacces, other_error,
  OpenAnswer, opened, failed, System, Config, GetRequest, GetEnd, returns, change, replied,
  generic_name, redirect_url, gunzip_file, gunzip_index, list_directory,
}

abbrev pub max_file_mmap : ℕ
max_file_mmap = 100 * 1024

-- `completed` of FileSend for this record.
abbrev pub settled : GetRequest → FileSend × Retval → GetRequest × GetEnd
settled g (f, r) = (record g { send = f }, returns r)

-- range_pool_pop, with start 0 and stop -1.
unfoldable pub whole_range : RangeState → RangeState
whole_range s =
    let (r, pool) = range_pool_pop s.pool in
    record s { ranges = record r { start = 0; stop = ulong_max } ∷ []; pool = pool }

-- The bytes are in the buffer, and the range begins `n` bytes later.
abbrev pub take_first : ℕ → Bytes → FileSend → FileSend
take_first n taken f = record f {
  reply = record f.reply {
    ranges = advance n f.reply.ranges;
    out = record f.reply.out { content = f.reply.out.content ++ taken };
  };
  bytes_written = f.bytes_written + n;
}

module _ (s : Server) (w : Written) where
  -- `n` bytes have been copied; `all` is that the range ends with them.
  unfoldable pub after_copy : Bool → FileSend → GetRequest → GetRequest × GetEnd
  after_copy all f g =
      if all
      then settled g (completed f (complete_response s w f.reply))
      else (record g { send = f }, returns Retval.more)

module _ (s : Server) (w : Written) (y : System) where
  -- The bytes that fit behind the header go into the buffer.
  unfoldable pub copy_first : Bytes → GetRequest → GetRequest × GetEnd
  copy_first data_mem g =
      let f = g.send in
      let bytes_free = buffer_size - length f.reply.out.content in
      let want = ((current f).stop - (current f).start + 1) % 2 ^ 32 in
      let n = min bytes_free want in
      if leb bytes_free 256
      then (g, returns Retval.more)
      else if not y.copies
      then replied (λ r. send_r_error s w (record r { out = reset_output_buffer r.out })) g
      else after_copy s w (n == want) (take_first n (take n (drop (current f).start data_mem)) f) g

  -- Behind the header.
  unfoldable pub begin_body : GetRequest → GetRequest × GetEnd
  begin_body g =
      if is_head g.send.reply.method
      then settled g (completed g.send (complete_response s w g.send.reply))
      else elim g.data_mem [ none ↦ (g, returns Retval.more) | some m ↦ copy_first m g ]

  -- The file is mapped, or read through the buffer.
  unfoldable pub map_file : ℕ → GetRequest → GetRequest
  map_file size g = by_map (if ltb max_file_mmap size then none else y.find_mmap)
    where
      by_map : Option Bytes → GetRequest
      by_map (some m) = record g { data_mem = some m }
      by_map none = record g {
        send = record g.send {
          reply = record g.send.reply { out = record g.send.reply.out { status = ioshuffle } };
          data_open = true;
        };
      }

  abbrev pub with_ranges : RangeState → GetRequest → GetRequest
  with_ranges q g = change (λ r. record r { ranges = q }) g

  -- The request has no ranges.
  unfoldable pub serve_whole : ℕ → GetRequest → GetRequest × GetEnd
  serve_whole size g =
      let g = map_file size g in
      let (q, kept) = ranges_fixup size (whole_range g.send.reply.ranges) in
      let g = with_ranges q g in
      if kept
      then begin_body (change (send_r_request_ok s) g)
      else replied (send_r_invalid_range s w) g

  unfoldable pub serve_ranges : ℕ → GetRequest → GetRequest × GetEnd
  serve_ranges size g =
      let (q, kept) = ranges_fixup size g.send.reply.ranges in
      let g = with_ranges q g in
      if kept
      then begin_body (change (send_r_partial_content s) (map_file size g))
      else replied (send_r_invalid_range s w) g

  abbrev pub is_http11 : HttpVersion → Bool
  is_http11 http11 = true
  is_http11 _ = false

  abbrev pub has_ranges : RangeState → Bool
  has_ranges q = elim q.ranges [ [] ↦ false | _ ∷ _ ↦ true ]

  -- `if_modified_since` is set, and the file is not newer.
  unfoldable pub is_current : Option Bytes → FileStat → Bool
  is_current none stat = false
  is_current (some date) stat = not (y.modified_since stat.mtime date)

  -- From the test for a regular file on.
  unfoldable pub serve_file : GetRequest → FileStat → GetRequest × GetEnd
  serve_file g stat =
      let g' = change (λ r. record r { filesize = stat.size; last_modified = stat.mtime }) g in
      elim stat.kind [
        | directory ↦ replied (send_r_bad_request s w) g
        | special ↦ replied (send_r_bad_request s w) g
        | regular ↦
            if is_current g.if_modified_since stat
            then replied (send_r_not_modified s w) g
            else if stat.size == 0
            then if is_http11 g.send.reply.http_version
              then replied (send_r_no_content s) g'
              else replied (send_r_request_ok s) g'
            else if has_ranges g.send.reply.ranges
            then serve_ranges stat.size g'
            else serve_whole stat.size g'
      ]

module _ (s : Server) (w : Written) (c : Config) (y : System) where
  -- What the index file answers.
  unfoldable pub by_index : Bytes → GetRequest → OpenAnswer → GetRequest × GetEnd
  by_index directory_index g (opened stat) =
      serve_file s w y (change (λ r. record r { request_uri = directory_index }) g) stat
  by_index directory_index g (failed eacces) = replied (send_r_forbidden s w) g
  by_index directory_index g (failed other_error) = replied (send_r_not_found s w) g
  by_index directory_index g (failed enoent) =
      let gz = g.pathname ++ directory_index ++ codes ".gz" in
      elim (y.open_file gz) [
        | opened stat ↦ gunzip_index s w c y directory_index (record g { pathname = gz })
        | failed e ↦ list_directory s w c y g
      ]

  unfoldable pub get_dir : Option Bytes → GetRequest → GetRequest × GetEnd
  get_dir none g = list_directory s w c y g
  get_dir (some directory_index) g =
      if ltb max_path_length (length g.pathname + length directory_index + 4)
      then replied (send_r_error s w) g
      else by_index directory_index g (y.open_file (g.pathname ++ directory_index))

  -- The buffer of the URL has 3 * MAX_PATH_LENGTH + 128 bytes.
  unfoldable pub redirect_dir : Bytes → GetRequest → GetRequest × GetEnd
  redirect_dir url g =
      if ltb (3 * max_path_length + 128) (length url)
      then replied (send_r_error s w) g
      else replied (send_r_moved_perm s w url) g

  -- The file is open.
  unfoldable pub opened_file : GetRequest → FileStat → GetRequest × GetEnd
  opened_file g stat =
      if not (y.access_allow g.pathname) then replied (send_r_forbidden s w) g else elim stat.kind [
        | directory ↦
            if last_byte g.pathname == b'/'
            then get_dir c.directory_index g
            else redirect_dir (redirect_url s.hsts_header c g.host g.send.reply.request_uri) g
        | _ ↦ serve_file s w y g stat
      ]

  -- The reply for the errno of the first open.
  unfoldable pub refuse : Errno → GetRequest → GetRequest × GetEnd
  refuse enoent g = replied (send_r_not_found s w) g
  refuse eacces g = replied (send_r_forbidden s w) g
  refuse other_error g = replied (send_r_bad_request s w) g

  -- The file could not be opened; `errno` is that of the last call, `saved` of the first one.
  unfoldable pub not_opened : (errno saved : Errno) → GetRequest → GetRequest × GetEnd
  not_opened enoent saved g =
      if ltb max_path_length (length g.pathname + 4)
      then replied (send_r_bad_request s w) g
      else elim (y.open_file (g.pathname ++ codes ".gz")) [
        | opened stat ↦ gunzip_file s w c y (record g { pathname = g.pathname ++ codes ".gz" })
        | failed e ↦ refuse saved g
      ]
  not_opened errno saved g = refuse saved g

  -- The generic name is tried; if it cannot be opened, the old name is put back.
  unfoldable pub try_generic : GetRequest → Option Bytes → GetRequest × GetEnd
  try_generic g none = not_opened enoent enoent g
  try_generic g (some name) = elim (y.open_file name) [
    | opened stat ↦ opened_file (record g { pathname = name }) stat
    | failed e ↦ not_opened e enoent g
  ]

  unfoldable pub by_open : GetRequest → OpenAnswer → GetRequest × GetEnd
  by_open g (opened stat) = opened_file g stat
  by_open g (failed enoent) =
      try_generic g (if c.use_lang_rewrite then generic_name g.pathname else none)
  by_open g (failed e) = not_opened e e g

  unfoldable pub init_get : GetRequest → GetRequest × GetEnd
  init_get g = by_open g (y.open_file g.pathname)
