-- ===== src/Lib.antt =====
-- The realworking program: three processes that take announcements of construction work off a
-- socket into a database (realworking/src/receive), hand the resulting files on to another system
-- (realworking/src/reflect), and tell an operator how the two are (realworking/src/monitor). They
-- share the code in realworking/src/common.
--
-- The receive process: WSocket reads telegrams with a head of 32 bytes (WHead) and puts their data
-- together to one XML text; the work thread repairs its characters (WSaxXml::FixChar) and parses it
-- (WSax2Handler) into records; the database thread makes each of them a database record (CstNode,
-- CstRecord, with WCoder for the texts), and at the end of a document compares them with the rows of
-- the database (DBWrite, DBConnection) and writes a result file (CstFile). The threads hand the work
-- on through WQueue. All processes log through RTWLog and read their options through RTWConf.
--
-- Which module models what (paths from realworking/src):
--   Common.Conf                common/src/common_conf.cxx: analyzeIni, RTWConf::open and read
--   Common.Log                 common/src/common_log.cxx: RTWLog::OpenFile, CheckEnd, CheckSize,
--                              WriteLog
--   Common.Trace               common/include/common_log.hxx, common/src/common_log.cxx: RTWTrace,
--                              RTWLogFactory and the macros, receive/WApp.cxx: InitLog, and
--                              common/sh_log/common_sh_log.cxx
--   Receive.Head               receive/WHead.cxx: the header, its bytes, Run
--   Receive.Coder              receive/WCoder.cxx: CheckChars
--   Receive.FixChar            receive/WSaxXml.cxx: FixChar
--   Receive.Sax                receive/WSaxXml.cxx: WSax2Handler
--   Receive.Work               receive/WSaxXml.cxx: WSaxXml::Run, SendReponse
--   Receive.Socket             receive/WSocket.cxx: Readn, Writen, ReadWork, Connect, Disconnect,
--                              CheckSignal
--   Receive.Queue              receive/include/WQueue.hxx, and its use in receive/WThread.cxx
--   Receive.HcCheck            receive/WTimeOut.cxx: the check that health checks go on coming
--   Receive.Node               receive/CstNode.cxx, CstRecord.cxx, CstUtil.cxx
--   Receive.Db                 receive/DBWrite.cxx, DBConnection.cxx, CstFile.cxx, WRecord.cxx; below
--                              it Table has the rows by the texts of their numbers
--   Receive.App                receive/WApp.cxx: the options and how they are checked
--   Receive.Main               receive/Main.cxx: main, the order in which threads end
--   Monitor.Process            monitor/ProcessWatcher.cpp
--   Monitor.LogWatch           monitor/LogAnalyzer.cpp, LogWatcher.cpp, AoSender.cpp: the choice of
--                              the file and the commands of a batch of lines
--   Monitor.LogWatch.LastLine  monitor/LogAnalyzer.cpp: ReadLastLineOfFile and the questions to files
--   Monitor.LogWatch.Watching  monitor/LogWatcher.cpp: WatchLog, the loop on the growing file, as
--                              fgets gives it
--   Monitor.Sender             monitor/AoSender.cpp: SendAo, SaveAoIntoLog
--   Monitor.Threads            monitor/WatchThread.cpp, RealworkMonitor.cpp: start, check and stop
--   Monitor.Main               monitor/Main.cpp, RealworkMonitor.cpp: the start, the wait and the
--                              exit codes
--   Reflect                    reflect/WorkReflector.cpp: merging, polling, the tests of a path
--   Reflect.Files              reflect/WorkReflector.cpp: MoveIntoBackup on directories
--   Reflect.Cycle              reflect/Main.cpp: a round of the main loop and all its rounds
--   Reflect.Startup            reflect/Main.cpp, WorkReflector.cpp: Initialize, main, exit codes
-- Base holds what they share: lists, bytes, tests and integers over the native numbers. The modules
-- below these hold the proofs, named for what they are about; the modules called Tests hold the
-- theorems at concrete inputs.
--
-- How the code is taken: a class is a record of its fields, an operation a function on it, with
-- what it throws or sends as part of the result. Text is a list of byte values. A thread that holds
-- a mutex makes one step; Receive.Queue has the steps of one producer and one consumer, as the
-- program uses the queue, and Receive.HcCheck those of the check thread with a timed wait and of
-- its callers, where what is done outside the mutex is a step of its own. Calls of the operating
-- system, of OTL, Oracle, Xerces and the C++ streams are arguments: lists of results (reads and
-- writes, polls, tries to reconnect, what happens in each round of a loop), a function from the
-- number of a statement to how it ends, and functions for atoi, mktime and the reading and printing
-- of numbers by streams. A directory is a list of names with contents, and what the system does to
-- it between two rounds is one of the arguments of a round.
--
-- Loops that wait for such results recurse on the list of results and say so where it is too short:
-- `none` in reconnect_db, run_end and merge_loop, `blocked` in readn and writen. The theorems on
-- them give lists that are long enough: the bytes asked for, one try for each failure allowed, one
-- round for each byte of a file, as a round of the reflector gives to merge_loop. The endless loops
-- of the three processes and their threads recurse on the list of what happens in each round, of any
-- length. All other recursion is structural.
--
-- Not modelled: the way from SIGTERM to the end of ReadWork through the signals of the threads, the
-- exception of ChangeTimeFormat in WriteRecord, opening sockets, running commands
-- (IsProcessStarted, and the creation of threads), the texts of messages, the opening of a log of
-- one file, the sizes of the buffers given to sprintf; the retry loops on the result file, which is
-- taken once it can be opened, renamed or removed. receive/CstConf.cxx and
-- receive/include/CstErrorMessage.hxx are tables of constants, and common/include/otlv4.h is a copy
-- of the OTL library.
pub mod Base
pub mod Common
pub mod Monitor
pub mod Receive
pub mod Reflect
