-- ===== src/Receive/Tests/Config.antt =====
-- The theorem on the configuration of the receiving process, at a concrete file.
use others.Base.{◌≡◌, refl, true, [], ◌++◌, some, Bytes, codes, find, starts_with, bytes_eq}
use others.Base.Int.{ℤ, pos}
use others.Common.Conf
use others.Receive.App
use others.Receive.App.{AppConf, init}
use others.Receive.App.Checked.{IsChecked, init-IsChecked}

abbrev conf_text : Bytes
conf_text =
    codes
      "[log]\nRTWORK_RECV_PROCESS_LOG_NAME=x\nRTWORK_RECV_COMMAND_LOG_NAME=x\nRTWORK_RECV_PROCESS_TRACE_MASK=7\nRTWORK_RECV_LOG_MAX_SIZE=7\n"
    ++ (codes
          "[command]\nRTWORK_RECV_NOTIFY_OSI_ENTITY=x\nRTWORK_RECV_NOTIFY_OC_NAME=x\nRTWORK_RECV_NOTIFY_HC_COUNT_AO_ID=7\nRTWORK_RECV_NOTIFY_WORK_COUNT_AO_ID=7\nRTWORK_RECV_NOTIFY_ERROR_COUNT_AO_ID=7\n"
        ++ (codes
              "[socket]\nRTWORK_RECV_LISTEN_PORT=7\nRTWORK_SOCKET_RECV_BUFF_SIZE=7\nRTWORK_RECV_HC_TIMEOUT=7\n"
            ++ (codes "[buff]\nRTWORK_WRITE_DB_BUFF_SIZE=7\n"
                ++ (codes "[db]\nRTWORK_ORACLE_USER=x\nRTWORK_ORACLE_PSW=x\nRTWORK_ORACLE_SID=x\n"
                    ++ (codes
                          "[path]\nRTWORK_RECV_NETYPE_CONF_FILE=x\nRTWORK_RECV_RESULT_TMP_DIR=x\nRTWORK_RECV_RESULT_DIR=x\n"
                        ++ (codes
                            "[retry]\nRTWORK_RECV_RETRY_INTERVAL=7\nRTWORK_DB_RETRY_NUMBER=7\n"))))))

abbrev conf : AppConf
conf = record {
  logs = record {
    process_log = codes "x";
    command_log = codes "x";
    trace_mask = pos 7;
    log_max_size = pos 7;
  };
  commands = record {
    osi_entity = codes "x";
    oc_name = codes "x";
    hc_ao = codes "7";
    work_ao = codes "7";
    error_ao = codes "7";
  };
  sockets = record {
    socket_port = pos 7;
    recv_socketbuff_size = pos 7;
    hc_timeout = pos 7;
    work_buff_size = pos 7;
  };
  cst = record {
    oracle_user = codes "x";
    oracle_psw = codes "x";
    oracle_sid = codes "x";
    recv_netype_conf_file = codes "x";
    recv_result_tmp_dir = codes "x";
    recv_result_dir = codes "x";
    recv_retry_interval = pos 7;
    db_retry_number = pos 7;
  };
}

abbrev seven : Bytes → ℤ
seven s = pos 7

init_conf : init seven (some conf_text) ≡ some conf
unfolding init App.read_conf App.read_log_items App.read_command_items App.read_socket_items
    App.read_cst_items App.read_conf_item App.check_item App.is_number App.all_digits
    App.buff_size_of Conf.open_conf Conf.split_lines Conf.analyze_all Conf.analyze Conf.section_of
    Conf.find_char Conf.rfind_char Conf.analyze_item Conf.key_of Conf.value_of Conf.cut_comment
    Conf.find_comment Conf.find_from Conf.find_first_not_blank Conf.find_last_not_blank Conf.assign
    Conf.lookup Conf.read find starts_with bytes_eq
init_conf = refl

init-IsChecked_example :
    ((Conf.open_conf (some conf_text) []).0 ≡ true)
    × IsChecked seven (Conf.open_conf (some conf_text) []).1 conf
init-IsChecked_example = init-IsChecked seven (some conf_text) conf init_conf
