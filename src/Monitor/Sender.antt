-- ===== src/Monitor/Sender.antt =====
-- monitor/AoSender.cpp beside the file of commands, which is in LogWatch: the messages about the
-- processes, the name of the file, its life, and the copy of the commands in the log. sprintf with
-- one format of the program, the clock, popen() and the files in /tmp are arguments.
pub mod Buffer
use others.Base.{
  ℕ, suc, ◌+◌, ◌*◌, ◌/◌, ◌%◌, Bool, true, false, if◌then◌else◌, List, [], ◌∷◌, ◌++◌, length, Option,
  none, some, Bytes, codes, is_empty, ltb,
}
use others.Monitor.LogWatch.{AoCommand, AoCommandContainer, is_unknown, make_tmp_ao_file}

-- TOTAL_AO_BUFFER_SIZE
unfoldable pub total_ao_buffer_size : ℕ
total_ao_buffer_size = 1024 * 10

-- One command of SaveAoIntoLog: it is appended with a newline if there is room.
unfoldable pub save_content : ℕ → Bytes → Bytes → Bytes
save_content size buf content =
    if ltb (length buf + length content + 1) size then buf ++ (content ++ b'\n' ∷ []) else buf

unfoldable pub save_counter : ℕ → Bytes → AoCommand → Bytes
save_counter size buf a = if is_unknown a.type then buf else save_content size buf a.cmd_content

-- The loop over commonCmdVector.
unfoldable pub save_common : ℕ → Bytes → List AoCommand → Bytes
save_common size buf [] = buf
save_common size buf (a ∷ cs) = save_common size (save_content size buf a.cmd_content) cs

-- aoFileBuf of SaveAoIntoLog, for a buffer of this size
unfoldable pub save_ao_into_log : ℕ → AoCommandContainer → Bytes
save_ao_into_log size c =
    save_common size
      (save_counter size (save_counter size (save_counter size [] c.hc_cnt_cmd) c.work_cnt_cmd)
        c.other_cnt_cmd)
      c.common_cmd_vector

-- What SendAo does: the lines written to the file, whether the command is run on it, whether there
-- is a file name for the destructor to unlink, and what is logged.
pub record Sent : Type 0 where
  pub written : Option (List Bytes)
  pub commanded : Bool
  pub result : Bool
  pub logged : Bytes

-- AoSender::SendAo, MakeTmpAoFile and SendAoFile: whether fopen() and popen() work.
unfoldable pub send_ao : Bool → Bool → AoCommandContainer → Sent
send_ao opens pipes c =
    let logged = save_ao_into_log total_ao_buffer_size c in
    if opens
    then record {
      written = some (make_tmp_ao_file c);
      commanded = pipes;
      result = pipes;
      logged = logged;
    }
    else record { written = none; commanded = false; result = false; logged = logged }
