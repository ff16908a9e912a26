-- ===== src/Examples/Files.antt =====
-- A request for a file at concrete inputs.
use boa.Common.{
  refl, inr, true, false, not, none, some, [], ◌++◌, arith, if◌then◌else◌, codes, str_eq,
}
use boa.Status.{m_get, http10, ka_active, write}
use boa.Buffer.{wrote}
use boa.FileSend.Sent.{Progress, held}
use boa.Get.{System, Config, GetRequest, opened, failed, enoent}
use boa.Get.Serve.{init_get}
use boa.Get.Whole.{plain_file, with_stat, headed_whole, init_get-Progress}
use boa.Examples.Sends.{server, midnight}

-- A disk with the one file /d/a, which is mapped.
abbrev disk : System
disk = record {
  open_file = λ name.
      if str_eq name (codes "/d/a")
      then opened (plain_file (codes "abc") midnight)
      else failed enoent;
  access_allow = λ name. not (str_eq name (codes "/d/b"));
  modified_since = λ t date. true;
  find_mmap = some (codes "abc");
  copies = true;
}

abbrev config : Config
config = record {
  use_lang_rewrite = true;
  server_name = codes "h";
  server_port = 80;
  no_redirect_port = false;
  directory_index = some (codes "index.html");
  dirmaker = false;
  cachedir = false;
}

abbrev asked : GetRequest
asked = record {
  send = record {
    reply = record {
      method = m_get;
      http_version = http10;
      response_status = 0;
      keepalive = ka_active;
      kacount = 5;
      cgi_type = none;
      ranges = record { ranges = []; numranges = 0; pool = [] };
      filesize = 0;
      last_modified = midnight;
      request_uri = codes "/a";
      out = record { status = write; buffer_start = 0; content = [] };
    };
    data_open = false;
    bytes_written = 0;
    client = [];
  };
  pathname = codes "/d/a";
  host = none;
  if_modified_since = some (codes "Sat, 01 Jan 2000 00:00:00 GMT");
  data_mem = none;
}

init_get-Progress_example :
    Progress
      (codes "abc")
      (held
          (headed_whole server
            (wrote 0)
            disk
            3
            (with_stat (codes "abc") midnight asked)).send.reply.out
        ++ codes "abc")
      (init_get server (wrote 0) config disk asked).0.send
unfolding boa.Get.Serve.is_current str_eq
init_get-Progress_example =
    init_get-Progress server (wrote 0) disk config (codes "abc") midnight asked refl refl refl refl
      refl refl (omega arith) (omega arith) refl (inr refl) (omega arith)
